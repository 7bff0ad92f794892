-- ===== src/Examples/Tokens.antt =====
-- The theorems on tokens and rate limits at concrete inputs, with a library that writes a token as the
-- secret, the type and the time of expiry.
use lalo_lao_alo.Base.{
  true, ℕ, ◌-◌, List, [], ◌∷◌, Option, none, some, ◌≡◌, refl, ltb, ◌==◌, if◌then◌else◌, arith,
}
use lalo_lao_alo.Common.{Time}
use lalo_lao_alo.Text.{Text, text, text_eq, text_eq_iff}
use lalo_lao_alo.Auth.Tokens.{
  TokenType, access, refresh, other_token, Claims, Jwt, Documented, Parsed, valid, expired,
  malformed, fine, fails, expired_token, not_refresh, wrong_type, JwtService, TokenPair, new_claims,
  issue_token_pair, issue_token, authenticate, refresh_tokens,
}
use lalo_lao_alo.Auth.Pairs as Pairs
use lalo_lao_alo.Auth.Pairs.{bearing}
use lalo_lao_alo.Signaling.Handler.{Upgrader, check_origin, serve_ws}
use lalo_lao_alo.Signaling.Admission as Admission
use lalo_lao_alo.Signaling.Admission.{showing, as_served}
use lalo_lao_alo.Auth.Limits.{RateLimit, allow, remaining}
use lalo_lao_alo.Auth.Windows as Windows
use lalo_lao_alo.Auth.Windows.{after_requests, in_window}

abbrev kind : TokenType → ℕ
kind access = 1
kind refresh = 2
kind other_token = 3

abbrev type_of : ℕ → TokenType
type_of n = if n == 1 then access else if n == 2 then refresh else other_token

-- This library signs tokens with no permission and with the permission "call".
abbrev flag : List Text → Option ℕ
flag [] = some 0
flag (p ∷ []) = if text_eq p (text "call") then some 1 else none
flag (p ∷ q ∷ ps) = none

abbrev flagged : ℕ → List Text
flagged f = if f == 1 then text "call" ∷ [] else []

abbrev written : ℕ → Claims → Option ℕ → Option Text
written k c none = none
written k c (some f) = some (
    k
    ∷ f
    ∷ kind c.token_type
    ∷ c.user_id
    ∷ c.device_id
    ∷ c.token_id
    ∷ c.expires_at
    ∷ c.issued_at
    ∷ [])

abbrev read : ℕ → Time → Text → Parsed
read k now (k' ∷ f ∷ n ∷ u ∷ d ∷ i ∷ e ∷ t ∷ []) =
    if k == k'
    then if ltb now e
      then valid (record {
        user_id = u;
        device_id = d;
        permissions = flagged f;
        token_type = type_of n;
        token_id = i;
        expires_at = e;
        issued_at = t;
      })
      else expired
    else malformed
read k now s = malformed

abbrev pub library : Jwt
library = record { sign = λ k c. written k c (flag c.permissions); parse = read }

flagged-flag : (ps : List Text) (f : ℕ) → flag ps ≡ some f → flagged f ≡ ps
flagged-flag [] f h = ground arith
flagged-flag (p ∷ []) f h = ground (arith, text_eq_iff p (text "call"))
flagged-flag (p ∷ q ∷ ps) f h = cc

type_of-kind : (t : TokenType) → type_of (kind t) ≡ t
type_of-kind access = refl
type_of-kind refresh = refl
type_of-kind other_token = refl

pub documented : Documented library
documented k c now s h = by_flag (flag c.permissions) refl h
  where
    by_flag :
        (f : Option ℕ)
        → flag c.permissions ≡ f
        → written k c f ≡ some s
        → read k now s ≡ (if ltb now c.expires_at then valid c else expired)
    by_flag none e w = cc
    by_flag (some f) e w =
        ground (arith, w, flagged-flag c.permissions f e, type_of-kind c.token_type)

abbrev pub service : JwtService
service = record { secret = 5; access_token_expiry = 900; refresh_token_expiry = 604800 }

abbrev pub pair : TokenPair
pair = record {
  access_token = 5 ∷ 1 ∷ 1 ∷ 2 ∷ 3 ∷ 8 ∷ 1000 ∷ 100 ∷ [];
  refresh_token = 5 ∷ 0 ∷ 2 ∷ 2 ∷ 3 ∷ 9 ∷ 604900 ∷ 100 ∷ [];
  expires_in = 900;
}

pub issued : issue_token_pair library service 100 (8, 9) 2 3 (text "call" ∷ []) ≡ fine pair
unfolding issue_token_pair issue_token
issued = refl

pair_round_trip_example :
    (authenticate library service 200 (bearing pair.access_token) ≡ (
      if ltb 200 1000
      then fine (new_claims 100 8 2 3 (text "call" ∷ []) access 900)
      else fails expired_token))
    × (authenticate library service 200 (bearing pair.refresh_token)
        ≡ (if ltb 200 604900 then fails wrong_type else fails expired_token))
    × (refresh_tokens library service 200 (10, 11) pair.access_token
        ≡ (if ltb 200 1000 then fails not_refresh else fails expired_token))
    × (refresh_tokens library service 200 (10, 11) pair.refresh_token ≡ (
        if ltb 200 604900
        then issue_token_pair library service 200 (10, 11) 2 3 []
        else fails expired_token))
pair_round_trip_example =
    Pairs.pair_round_trip library service 100 200 (8, 9) (10, 11) 2 3 (text "call" ∷ []) pair
      documented issued refl refl

abbrev two_per_window : RateLimit
two_per_window = record { limit = 2; window = 1000000 }

allow_iff_example :
    ((allow two_per_window 2500000 (after_requests two_per_window (2000000 ∷ 1000000 ∷ []))).1
      ≡ ltb (in_window two_per_window 2500000 (2000000 ∷ 1000000 ∷ [])) 2)
    × (remaining two_per_window 2500000 (after_requests two_per_window (2000000 ∷ 1000000 ∷ []))
        ≡ 2 - in_window two_per_window 2500000 (2000000 ∷ 1000000 ∷ []))
allow_iff_example = Windows.allow_iff two_per_window 2500000 (2000000 ∷ 1000000 ∷ []) (omega arith)

abbrev pub upgrader : Upgrader
upgrader = record { upgrade = λ allowed r. if allowed then some 4 else none }

ws_agrees_example :
    serve_ws library service upgrader
      (text "app" ∷ [])
      200
      (showing true pair.access_token (text "app"))
    ≡ as_served
        (upgrader.upgrade
          (check_origin (text "app" ∷ []) (showing true pair.access_token (text "app")))
          (showing true pair.access_token (text "app")))
        (authenticate library service 200 (bearing pair.access_token))
ws_agrees_example =
    Admission.ws_agrees library service upgrader (text "app" ∷ []) 200 true pair.access_token
      (text "app")
