-- ===== src/Auth/Pairs.antt =====
-- What a pair of tokens of internal/auth/jwt.go is good for.
use lalo_lao_alo.Base.{
  ℕ, ◌+◌, ◌≡◌, refl, Bool, true, false, List, [], ◌++◌, Option, none, some, ltb, if◌then◌else◌,
  is_empty,
}
use lalo_lao_alo.Common.{UserId, DeviceId, Time}
use lalo_lao_alo.Text.{Text, text}
use lalo_lao_alo.Auth.Tokens.{
  access, refresh, Jwt, Documented, fine, fails, expired_token, not_refresh, wrong_type, JwtService,
  TokenPair, new_claims, issue_token, issue_token_pair, paired, validate, claims_of, refresh_tokens,
  refreshed, Credentials, extract_token, split_space, admitted, authenticate,
}

-- A header with a token.
abbrev pub bearing : Text → Credentials
bearing token = record { authorization = text "Bearer " ++ token; query_token = [] }

pub extract_token-bearing : (token : Text) → extract_token (bearing token) ≡ token
unfolding extract_token split_space
extract_token-bearing token = refl

if_ap :
    {A B : Type 0} (f : A → B) (b : Bool) (x y : A)
    → f (if b then x else y) ≡ (if b then f x else f y)
if_ap f true x y = refl
if_ap f false x y = refl

-- The tokens of a pair, signed one by one.
pair_signed :
    (jwt : Jwt) (s : JwtService) (now : Time) (ids : ℕ × ℕ) (u : UserId) (d : DeviceId)
    (permissions : List Text) (pair : TokenPair)
    → issue_token_pair jwt s now ids u d permissions ≡ fine pair
    → (jwt.sign s.secret (new_claims now ids.0 u d permissions access s.access_token_expiry)
        ≡ some pair.access_token)
      × (jwt.sign s.secret (new_claims now ids.1 u d [] refresh s.refresh_token_expiry)
          ≡ some pair.refresh_token)
unfolding issue_token_pair issue_token
pair_signed jwt s now (i, j) u d permissions pair h =
    by_parts (jwt.sign s.secret (new_claims now i u d permissions access s.access_token_expiry))
      (jwt.sign s.secret (new_claims now j u d [] refresh s.refresh_token_expiry)) h
  where
    by_parts :
        (a r : Option Text)
        → paired s.access_token_expiry a r ≡ fine pair
        → (a ≡ some pair.access_token) × (r ≡ some pair.refresh_token)
    by_parts (some a) (some r) e = (cc, cc)
    by_parts none r e = cc
    by_parts (some a) none e = cc

-- The pair that is issued at `now`, at the time `t`, where the library does what it documents and no
-- token is empty. The access token is admitted to the API, with the user, the device and the
-- permissions, until it expires, and refreshes nothing. The refresh token is never admitted; until
-- it expires it is exchanged, again and again, for a new pair of the same user and device, and that
-- pair has no permissions.
pub pair_round_trip :
    (jwt : Jwt) (s : JwtService) (now t : Time) (ids ids' : ℕ × ℕ) (u : UserId) (d : DeviceId)
    (permissions : List Text) (pair : TokenPair)
    → Documented jwt
    → issue_token_pair jwt s now ids u d permissions ≡ fine pair
    → is_empty pair.access_token ≡ false
    → is_empty pair.refresh_token ≡ false
    → (authenticate jwt s t (bearing pair.access_token) ≡ (
        if ltb t (now + s.access_token_expiry)
        then fine (new_claims now ids.0 u d permissions access s.access_token_expiry)
        else fails expired_token))
      × (authenticate jwt s t (bearing pair.refresh_token) ≡ (
          if ltb t (now + s.refresh_token_expiry) then fails wrong_type else fails expired_token))
      × (refresh_tokens jwt s t ids' pair.access_token ≡ (
          if ltb t (now + s.access_token_expiry) then fails not_refresh else fails expired_token))
      × (refresh_tokens jwt s t ids' pair.refresh_token ≡ (
          if ltb t (now + s.refresh_token_expiry)
          then issue_token_pair jwt s t ids' u d []
          else fails expired_token))
unfolding authenticate validate refresh_tokens
pair_round_trip jwt s now t ids ids' u d permissions pair doc h a r =
    let (sa, sr) = pair_signed jwt s now ids u d permissions pair h in
    let pa =
      doc s.secret (new_claims now ids.0 u d permissions access s.access_token_expiry) t
        pair.access_token sa in
    let pr =
      doc s.secret (new_claims now ids.1 u d [] refresh s.refresh_token_expiry) t pair.refresh_token
        sr in
    (
      simp (extract_token-bearing pair.access_token, a, pa)
          (if_ap (λ x. admitted (claims_of x)) (ltb t (now + s.access_token_expiry)) _ _),
      simp (extract_token-bearing pair.refresh_token, r, pr)
          (if_ap (λ x. admitted (claims_of x)) (ltb t (now + s.refresh_token_expiry)) _ _),
      simp pa (
          if_ap (λ x. refreshed jwt s t ids' (claims_of x)) (ltb t (now + s.access_token_expiry)) _
            _),
      simp pr (
          if_ap (λ x. refreshed jwt s t ids' (claims_of x)) (ltb t (now + s.refresh_token_expiry)) _
            _),
    )
