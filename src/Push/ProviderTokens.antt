-- ===== src/Push/ProviderTokens.antt =====
-- The token of the provider that internal/push/apns.go keeps between two calls.
use lalo_lao_alo.Base.{
  ℕ, ◌+◌, ◌<◌, ◌≡◌, refl, true, false, not, ◌&&◌, List, [], ◌∷◌, ltb, is_empty, Bool-cases, inl,
  inr, ◌⊎◌, ◌∙◌, subst, arith,
}
use lalo_lao_alo.Common.{Time}
use lalo_lao_alo.Text.{Try, done, error, Text}
use lalo_lao_alo.Push.Apns.{
  ApnsConfig, ApnsSender, Apple, refreshed, get_jwt, with_token, apns_send, ecdsa, new_apns_sender,
}

-- A library that signs in the same way at all times.
abbrev pub Signing : Type 0
Signing = ℕ → Text → Text → Time → Try Text

abbrev pub signed_by : Signing → Apple → Apple
signed_by sign a = record a { sign = sign }

-- The calls of `Send` one after another.
unfoldable pub apns_sends : Signing → List (Apple × Text × Text) → ApnsSender → ApnsSender
apns_sends sign [] s = s
apns_sends sign ((a, token, id) ∷ calls) s =
    apns_sends sign calls (apns_send (signed_by sign a) token id s).0

-- A token that is kept was signed 50 minutes before it is due.
pub data IsKept (sign : Signing) (s : ApnsSender) : Type 0 where
  no_token : is_empty s.jwt_token ≡ true → IsKept sign s
  kept :
      (at : Time)
      → sign s.private_key s.cfg.team_id s.cfg.key_id at ≡ done s.jwt_token
      → s.jwt_exp ≡ at + 3000
      → IsKept sign s

with_token-fst :
    (a : Apple) (token id : Text) (x : ApnsSender × Try Text) → (with_token a token id x).0 ≡ x.0
with_token-fst a token id (s, error e) = refl
with_token-fst a token id (s, done t) = refl

refreshed-IsKept :
    (sign : Signing) (now : Time) (s : ApnsSender) (t : Try Text)
    → sign s.private_key s.cfg.team_id s.cfg.key_id now ≡ t
    → IsKept sign s
    → IsKept sign (refreshed now s t).0
refreshed-IsKept sign now s (error e) h k = k
refreshed-IsKept sign now s (done t) h k = kept now h (omega arith)

get_jwt-IsKept :
    (sign : Signing) (a : Apple) (s : ApnsSender)
    → IsKept sign s
    → IsKept sign (get_jwt (signed_by sign a) s).0
unfolding get_jwt
get_jwt-IsKept sign a s k =
    elim (Bool-cases (not (is_empty s.jwt_token) && ltb a.checked_at s.jwt_exp)) [
      | inl e ↦ rw e k
      | inr e ↦ rw e (
          refreshed-IsKept sign a.signed_at s
            (sign s.private_key s.cfg.team_id s.cfg.key_id a.signed_at) refl k)
    ]

apns_sends-IsKept :
    (sign : Signing) (calls : List (Apple × Text × Text)) (s : ApnsSender)
    → IsKept sign s
    → IsKept sign (apns_sends sign calls s)
unfolding apns_sends apns_send
apns_sends-IsKept sign [] s k = k
apns_sends-IsKept sign ((a, token, id) ∷ calls) s k =
    apns_sends-IsKept sign calls
      (with_token (signed_by sign a) token id (get_jwt (signed_by sign a) s)).0
      (rw (with_token-fst (signed_by sign a) token id (get_jwt (signed_by sign a) s))
        (get_jwt-IsKept sign a s k))

-- Where a token came from: `a` may send it.
abbrev pub FreshFor : Signing → Apple → ApnsSender → Text → Type 0
FreshFor sign a s t =
    (at : Time) × (sign s.private_key s.cfg.team_id s.cfg.key_id at ≡ done t)
    × ((a.checked_at < at + 3000) ⊎ (at ≡ a.signed_at))

refreshed-fresh :
    (sign : Signing) (a : Apple) (s : ApnsSender) (t : Text) (x : Try Text)
    → sign s.private_key s.cfg.team_id s.cfg.key_id a.signed_at ≡ x
    → (refreshed a.signed_at s x).1 ≡ done t
    → FreshFor sign a s t
refreshed-fresh sign a s t (error e) h k = cc
refreshed-fresh sign a s t (done u) h k = (a.signed_at, h ∙ k, inr refl)

kept-fresh :
    (sign : Signing) (a : Apple) (s : ApnsSender)
    → IsKept sign s
    → is_empty s.jwt_token ≡ false
    → a.checked_at < s.jwt_exp
    → FreshFor sign a s s.jwt_token
kept-fresh sign a s (no_token e) h l = cc
kept-fresh sign a s (kept at e x) h l = (at, e, inl (omega arith))

get_jwt-fresh :
    (sign : Signing) (a : Apple) (s : ApnsSender) (t : Text)
    → IsKept sign s
    → (get_jwt (signed_by sign a) s).1 ≡ done t
    → FreshFor sign a s t
unfolding get_jwt
get_jwt-fresh sign a s t k h =
    elim (Bool-cases (not (is_empty s.jwt_token) && ltb a.checked_at s.jwt_exp)) [
      | inl e ↦
          let same : s.jwt_token ≡ t = ground (arith, h, e) in
          subst (FreshFor sign a s) same
            (kept-fresh sign a s k (ground (arith, e)) (ground (arith, e)))
      | inr e ↦
          refreshed-fresh sign a s t (sign s.private_key s.cfg.team_id s.cfg.key_id a.signed_at)
            refl (ground (arith, h, e))
    ]

-- After any calls of a new sender, with a library that signs, the token that the next call is
-- authorized with was signed by the sender's key, with its team and identifier, at a time that is
-- less than 50 minutes before that call, or it is signed in that call.
pub provider_token_fresh :
    (sign : Signing) (cfg : ApnsConfig) (key : ℕ) (calls : List (Apple × Text × Text))
    (s : ApnsSender) (a : Apple) (t : Text)
    → new_apns_sender cfg (ecdsa key) ≡ done s
    → (get_jwt (signed_by sign a) (apns_sends sign calls s)).1 ≡ done t
    → FreshFor sign a (apns_sends sign calls s) t
unfolding new_apns_sender
provider_token_fresh sign cfg key calls s a t n h =
    let empty : is_empty s.jwt_token ≡ true = ground (arith, n) in
    get_jwt-fresh sign a (apns_sends sign calls s) t
      (apns_sends-IsKept sign calls s (no_token empty)) h
