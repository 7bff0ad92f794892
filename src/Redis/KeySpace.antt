-- ===== src/Redis/KeySpace.antt =====
-- Which keys in Redis are the same: internal/models/redis_keys.go and internal/signaling/session.go.
use lalo_lao_alo.Base.{
  ◌≡◌, ◌≢◌, ◌↔◌, refl, sym, ap, false, [], ◌∷◌, ◌++◌, length, length-append, contains, arith,
}
use lalo_lao_alo.Text.{Text, text, append_cancel, contains-append}
use lalo_lao_alo.Redis.Keys.{
  session_key, session_participants_key, user_active_call_key, hub_session_key, hub_user_key,
}

append_cancel_right : (s t r : Text) → s ++ r ≡ t ++ r → s ≡ t
append_cancel_right [] [] r h = refl
append_cancel_right [] (d ∷ t) r h = absurd (omega (arith, ap length h, length-append t r))
append_cancel_right (c ∷ s) [] r h = absurd (omega (arith, ap length h, length-append s r))
append_cancel_right (c ∷ s) (d ∷ t) r h =
    let rest = append_cancel_right s t r (cc) in ground (arith, rest, h)

-- What stands before the first colon.
before_colon :
    (s t a b : Text)
    → contains s b':' ≡ false
    → contains t b':' ≡ false
    → s ++ b':' ∷ a ≡ t ++ b':' ∷ b
    → s ≡ t
before_colon [] [] a b p q h = refl
before_colon [] (d ∷ t) a b p q h = ground (arith, p, q, h)
before_colon (c ∷ s) [] a b p q h = ground (arith, p, q, h)
before_colon (c ∷ s) (d ∷ t) a b p q h =
    let rest = before_colon s t a b (ground (arith, p)) (ground (arith, q)) (cc) in
    ground (arith, rest, h)

-- For identifiers without a colon: a session has one key, which the hub and the orchestrator share
-- and which no other session has; the key of its participants is not that of a session, and no other
-- session has it; and the orchestrator marks a user, whose identifier is not "active_call", under a
-- key under which the hub marks nobody.
pub keys_apart :
    (c d u v : Text)
    → contains c b':' ≡ false
    → contains d b':' ≡ false
    → contains u b':' ≡ false
    → u ≢ text "active_call"
    → ((hub_session_key c ≡ session_key d) ↔ (c ≡ d))
      × (session_key c ≢ session_participants_key d)
      × ((session_participants_key c ≡ session_participants_key d) ↔ (c ≡ d))
      × (hub_user_key v ≢ user_active_call_key u)
unfolding session_key session_participants_key user_active_call_key hub_session_key hub_user_key
keys_apart c d u v p q n other = (
  (λ h. append_cancel (text "session:") c d h, λ e. rw e),
  λ h. no_colon (append_cancel (text "session:") c (d ++ text ":participants") h),
  (
    λ h.
        append_cancel_right c d (text ":participants") (
          append_cancel (text "session:") (c ++ text ":participants") (d ++ text ":participants")
            h),
    λ e. rw e,
  ),
  λ h. other (
      sym (
        before_colon (text "active_call") u v (text "active_call") refl n
          (append_cancel (text "user:") (text "active_call:" ++ v) (u ++ text ":active_call") h))),
)
  where
    no_colon : c ≢ d ++ text ":participants"
    no_colon e =
        let found = contains-append d (text ":participants") b':' refl in
        ground (arith, p, ap (λ s. contains s b':') e, found)
