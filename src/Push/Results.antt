-- ===== src/Push/Results.antt =====
-- What a push to the devices of a callee comes to: internal/push/gateway.go.
use lalo_lao_alo.Base.{
  ℕ, suc, length, ◌≡◌, ◌≢◌, ◌↔◌, refl, ap, Bool, true, false, not, ◌&&◌, List, [], ◌∷◌, ◌++◌, none,
  some, Option-cases, if◌then◌else◌, inl, inr, arith,
}
use lalo_lao_alo.Common.{UserId, Time}
use lalo_lao_alo.Text.{Text}
use lalo_lao_alo.Push.{PushToken, IncomingCallPush, DeliveryResult, PushResult, no_active_tokens}
use lalo_lao_alo.Push.Store.{Table, get_active_tokens, invalidate_token, deactivate, has_token}
use lalo_lao_alo.Push.Senders.{is_invalid_token}
use lalo_lao_alo.Push.Gateway.{
  Outside, Gateway, send_to, collect, delivery, invalidated, send_incoming_call_push, send_all,
  finished, is_sent, with_defaults,
}

-- No delivery is accepted.
abbrev pub AllRefused : Outside → IncomingCallPush → List PushToken → Type 0
AllRefused o p [] = Unit {0}
AllRefused o p (t ∷ ts) = (send_to o p t ≢ none) × AllRefused o p ts

collect-refused :
    (o : Outside) (p : IncomingCallPush) (ts table : Table)
    → ((collect o p ts table).0.1 ≡ true) ↔ AllRefused o p ts
unfolding collect
collect-refused o p [] table = (λ h. tt, λ h. refl)
collect-refused o p (t ∷ ts) table =
    let ih = collect-refused o p ts (invalidated o t (delivery o t (send_to o p t)) table) in
    elim (Option-cases (send_to o p t)) [
      | inl e ↦
          let accepted : is_sent (delivery o t (send_to o p t)).status ≡ true = rw e refl in
          (λ h. ground (arith, accepted, h), λ (n, r). absurd (n e))
      | inr (a, e) ↦
          let refused : is_sent (delivery o t (send_to o p t)).status ≡ false = rw e refl in
          (
            λ h. (λ q. cc, ih.0 (ground (arith, refused, h))),
            λ (n, r). ground (arith, refused, ih.1 r),
          )
    ]

collect-length :
    (o : Outside) (p : IncomingCallPush) (ts table : Table)
    → length (collect o p ts table).0.0 ≡ length ts
unfolding collect
collect-length o p [] table = refl
collect-length o p (t ∷ ts) table =
    ap suc (collect-length o p ts (invalidated o t (delivery o t (send_to o p t)) table))

-- Every row with the token is inactive.
abbrev pub is_dead : ℕ → Table → Bool
is_dead k [] = true
is_dead k (t ∷ ts) = not (has_token k t && t.is_active) && is_dead k ts

deactivate-dead :
    (now : Time) (k : ℕ) (ts : Table) → is_dead k (deactivate now (has_token k) ts) ≡ true
unfolding deactivate
deactivate-dead now k [] = refl
deactivate-dead now k (t ∷ ts) = ground (arith, deactivate-dead now k ts)

deactivate-keeps_dead :
    (now : Time) (k : ℕ) (p : PushToken → Bool) (ts : Table)
    → is_dead k ts ≡ true
    → is_dead k (deactivate now p ts) ≡ true
unfolding deactivate
deactivate-keeps_dead now k p [] h = refl
deactivate-keeps_dead now k p (t ∷ ts) h = ground (arith, deactivate-keeps_dead now k p ts)

invalidated-keeps_dead :
    (o : Outside) (t : PushToken) (dr : DeliveryResult) (k : ℕ) (table : Table)
    → is_dead k table ≡ true
    → is_dead k (invalidated o t dr table) ≡ true
unfolding invalidate_token
invalidated-keeps_dead o t dr k table h =
    ground (arith, deactivate-keeps_dead o.now k (has_token t.push_token) table h)

collect-keeps_dead :
    (o : Outside) (p : IncomingCallPush) (ts : Table) (k : ℕ) (table : Table)
    → is_dead k table ≡ true
    → is_dead k (collect o p ts table).1 ≡ true
unfolding collect
collect-keeps_dead o p [] k table h = h
collect-keeps_dead o p (t ∷ ts) k table h =
    collect-keeps_dead o p ts k (invalidated o t (delivery o t (send_to o p t)) table)
      (invalidated-keeps_dead o t (delivery o t (send_to o p t)) k table h)

collect-kills :
    (o : Outside) (p : IncomingCallPush) (xs ys : Table) (t : PushToken) (e : Text) (table : Table)
    → send_to o p t ≡ some e
    → is_invalid_token e ≡ true
    → o.invalidate_fails t.push_token ≡ false
    → is_dead t.push_token (collect o p (xs ++ t ∷ ys) table).1 ≡ true
unfolding collect invalidate_token
collect-kills o p [] ys t e table a b c =
    collect-keeps_dead o p ys t.push_token _
      (rw (a, b, c) (deactivate-dead o.now t.push_token table))
collect-kills o p (x ∷ xs) ys t e table a b c =
    collect-kills o p xs ys t e (invalidated o x (delivery o x (send_to o p x)) table) a b c

with_tokens :
    (o : Outside) (p : IncomingCallPush) (callee : UserId) (g : Gateway) (ts : Table)
    → o.list_fails ≡ false
    → get_active_tokens callee g.table ≡ ts
    → send_incoming_call_push o p callee g ≡ send_all o p callee ts g
unfolding send_incoming_call_push
with_tokens o p callee g ts l e = simp (l, e)

-- A push to a callee without active tokens is an error and changes nothing: no event is published and
-- the caller is not told.
nobody_told_without_tokens :
    (o : Outside) (p : IncomingCallPush) (callee : UserId) (g : Gateway)
    → o.list_fails ≡ false
    → get_active_tokens callee g.table ≡ []
    → ((send_incoming_call_push o p callee g).0 ≡ g)
      × ((send_incoming_call_push o p callee g).1.1 ≡ some no_active_tokens)
nobody_told_without_tokens o p callee g l e = rw (with_tokens o p callee g [] l e) (refl, refl)

-- The result of a push to a callee with active tokens, where the database lists them, says that all
-- devices failed exactly if no delivery was accepted, and has one entry for each token. It is
-- published where there is a bus, and the caller is told, where there is a callback, exactly if no
-- delivery was accepted.
pub push_outcome :
    (o : Outside) (p : IncomingCallPush) (callee : UserId) (g : Gateway) (t : PushToken)
    (ts : Table)
    → o.list_fails ≡ false
    → get_active_tokens callee g.table ≡ t ∷ ts
    → (r : PushResult) × ((send_incoming_call_push o p callee g).1 ≡ (some r, none))
      × ((r.all_failed ≡ true) ↔ AllRefused o (with_defaults o.now g.ring_ttl p) (t ∷ ts))
      × (length r.devices ≡ length (t ∷ ts))
      × ((send_incoming_call_push o p callee g).0.deliveries
          ≡ (if g.has_bus then g.deliveries ++ r ∷ [] else g.deliveries))
      × ((send_incoming_call_push o p callee g).0.notified ≡ (
          if r.all_failed && g.has_callback
          then g.notified ++ (p.call_id, p.caller_id) ∷ []
          else g.notified))
push_outcome o p callee g t ts l e =
    let x = collect o (with_defaults o.now g.ring_ttl p) (t ∷ ts) g.table in
    (
      finished callee p.call_id x.0,
      rw (with_tokens o p callee g (t ∷ ts) l e) refl,
      collect-refused o (with_defaults o.now g.ring_ttl p) (t ∷ ts) g.table,
      collect-length o (with_defaults o.now g.ring_ttl p) (t ∷ ts) g.table,
      rw (with_tokens o p callee g (t ∷ ts) l e) refl,
      rw (with_tokens o p callee g (t ∷ ts) l e) refl,
    )

-- A token that its sender has refused as invalid is inactive afterwards, in every row that has it,
-- if the database takes the statement.
refused_token_inactive :
    (o : Outside) (p : IncomingCallPush) (callee : UserId) (g : Gateway) (xs ys : Table)
    (t : PushToken) (e : Text)
    → o.list_fails ≡ false
    → get_active_tokens callee g.table ≡ xs ++ t ∷ ys
    → send_to o (with_defaults o.now g.ring_ttl p) t ≡ some e
    → is_invalid_token e ≡ true
    → o.invalidate_fails t.push_token ≡ false
    → is_dead t.push_token (send_incoming_call_push o p callee g).0.table ≡ true
refused_token_inactive o p callee g [] ys t e l a b c d =
    rw (with_tokens o p callee g (t ∷ ys) l a)
      (collect-kills o (with_defaults o.now g.ring_ttl p) [] ys t e g.table b c d)
refused_token_inactive o p callee g (x ∷ xs) ys t e l a b c d =
    rw (with_tokens o p callee g (x ∷ xs ++ t ∷ ys) l a)
      (collect-kills o (with_defaults o.now g.ring_ttl p) (x ∷ xs) ys t e g.table b c d)
