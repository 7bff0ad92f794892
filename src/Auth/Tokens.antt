-- ===== src/Auth/Tokens.antt =====
-- The tokens of the API: internal/auth/jwt.go and middleware.go. The library that signs and parses
-- tokens is a parameter. Times are in seconds.
use lalo_lao_alo.Base.{
  ℕ, ◌+◌, ◌*◌, Bool, true, false, ◌&&◌, List, [], ◌∷◌, Option, none, some, ◌==◌, leb, ltb,
  if◌then◌else◌, is_empty, ◌≡◌,
}
use lalo_lao_alo.Common.{UserId, DeviceId, Time, is_zero}
use lalo_lao_alo.Text.{Text, text, text_eq}

pub data TokenType : Type 0 where
  access refresh other_token : TokenType

pub record Claims : Type 0 where
  pub user_id : UserId
  pub device_id : DeviceId
  pub permissions : List Text
  pub token_type : TokenType
  pub token_id : ℕ
  pub expires_at : Time
  pub issued_at : Time

pub data Parsed : Type 0 where
  valid : Claims → Parsed
  expired malformed : Parsed

-- The library: `SignedString` of a token with claims, and `ParseWithClaims` with a key function that
-- accepts the HMAC methods only.
pub record Jwt : Type 0 where
  pub sign : ℕ → Claims → Option Text
  pub parse : ℕ → Time → Text → Parsed

-- What the library's documentation says of a token that it has signed with the same secret.
abbrev pub Documented : Jwt → Type 0
Documented jwt =
    (secret : ℕ) (c : Claims) (now : Time) (s : Text)
    → jwt.sign secret c ≡ some s
    → jwt.parse secret now s ≡ (if ltb now c.expires_at then valid c else expired)

pub data TokenError : Type 0 where
  empty_secret expired_token invalid_token not_refresh signing_failed : TokenError
  missing_token wrong_type : TokenError

pub data Fallible (A : Type 0) : Type 0 where
  fine : A → Fallible A
  fails : TokenError → Fallible A

pub record JwtService : Type 0 where
  pub secret : ℕ
  pub access_token_expiry : ℕ
  pub refresh_token_expiry : ℕ

pub record TokenPair : Type 0 where
  pub access_token : Text
  pub refresh_token : Text
  pub expires_in : ℕ

-- A number of minutes or days that is not positive is 0.
unfoldable pub new_jwt_service : ℕ → ℕ → ℕ → Fallible JwtService
new_jwt_service secret access_mins refresh_days =
    if is_zero secret
    then fails empty_secret
    else fine (record {
      secret = secret;
      access_token_expiry = (if is_zero access_mins then 15 else access_mins) * 60;
      refresh_token_expiry = (if is_zero refresh_days then 7 else refresh_days) * 86400;
    })

abbrev pub new_claims : Time → ℕ → UserId → DeviceId → List Text → TokenType → ℕ → Claims
new_claims now fresh u d permissions kind expiry = record {
  user_id = u;
  device_id = d;
  permissions = permissions;
  token_type = kind;
  token_id = fresh;
  expires_at = now + expiry;
  issued_at = now;
}

-- `fresh` is the random identifier of the token.
unfoldable pub issue_token :
    Jwt → JwtService → Time → ℕ → UserId → DeviceId → List Text → TokenType → ℕ → Option Text
issue_token jwt s now fresh u d permissions kind expiry =
    jwt.sign s.secret (new_claims now fresh u d permissions kind expiry)

abbrev pub paired : ℕ → Option Text → Option Text → Fallible TokenPair
paired expiry (some a) (some r) =
    fine (record { access_token = a; refresh_token = r; expires_in = expiry })
paired expiry none r = fails signing_failed
paired expiry (some a) none = fails signing_failed

-- The two identifiers are those of the two tokens.
unfoldable pub issue_token_pair :
    Jwt → JwtService → Time → ℕ × ℕ → UserId → DeviceId → List Text → Fallible TokenPair
unfolding issue_token
issue_token_pair jwt s now (i, j) u d permissions =
    paired s.access_token_expiry
      (issue_token jwt s now i u d permissions access s.access_token_expiry)
      (issue_token jwt s now j u d [] refresh s.refresh_token_expiry)

abbrev pub claims_of : Parsed → Fallible Claims
claims_of (valid c) = fine c
claims_of expired = fails expired_token
claims_of malformed = fails invalid_token

unfoldable pub validate : Jwt → JwtService → Time → Text → Fallible Claims
validate jwt s now token = claims_of (jwt.parse s.secret now token)

abbrev pub is_refresh : TokenType → Bool
is_refresh refresh = true
is_refresh _ = false

abbrev pub is_access : TokenType → Bool
is_access access = true
is_access _ = false

abbrev pub refreshed : Jwt → JwtService → Time → ℕ × ℕ → Fallible Claims → Fallible TokenPair
refreshed jwt s now ids (fails e) = fails e
refreshed jwt s now ids (fine c) =
    if is_refresh c.token_type
    then issue_token_pair jwt s now ids c.user_id c.device_id []
    else fails not_refresh

unfoldable pub refresh_tokens : Jwt → JwtService → Time → ℕ × ℕ → Text → Fallible TokenPair
refresh_tokens jwt s now ids token = refreshed jwt s now ids (validate jwt s now token)

-- The request's header "Authorization" and its query parameter "token", empty where absent.
pub record Credentials : Type 0 where
  pub authorization : Text
  pub query_token : Text

-- The parts before and after the first space, if there is one.
abbrev pub earlier : ℕ → Option (Text × Text) → Option (Text × Text)
earlier c none = none
earlier c (some (a, b)) = some (c ∷ a, b)

unfoldable pub split_space : Text → Option (Text × Text)
split_space [] = none
split_space (c ∷ s) = let rest = split_space s in if c == b' ' then some ([], s) else earlier c rest

abbrev pub lower : ℕ → ℕ
lower c = if leb b'A' c && leb c b'Z' then c + 32 else c

abbrev pub to_lower : Text → Text
to_lower [] = []
to_lower (c ∷ s) = lower c ∷ to_lower s

abbrev pub bearer_of : Option (Text × Text) → Text → Text
bearer_of none query = query
bearer_of (some (scheme, token)) query =
    if text_eq (to_lower scheme) (text "bearer") then token else query

unfoldable pub extract_token : Credentials → Text
extract_token r =
    if is_empty r.authorization
    then r.query_token
    else bearer_of (split_space r.authorization) r.query_token

abbrev pub admitted : Fallible Claims → Fallible Claims
admitted (fails e) = fails e
admitted (fine c) = if is_access c.token_type then fine c else fails wrong_type

-- `JWTMiddleware`: the claims that the next handler gets, or the reason for a 401.
unfoldable pub authenticate : Jwt → JwtService → Time → Credentials → Fallible Claims
authenticate jwt s now r =
    if is_empty (extract_token r)
    then fails missing_token
    else admitted (validate jwt s now (extract_token r))
