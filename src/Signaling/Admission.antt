-- ===== src/Signaling/Admission.antt =====
-- Who connects to the signaling service: `ServeWS` of internal/signaling/handler.go with the tokens
-- of internal/auth/jwt.go.
use mathlib.Core.List.{Mem, mem-cons_self, mem-cons_of_mem}
use lalo_lao_alo.Base.{
  ◌≢◌, ℕ, ◌≡◌, refl, Bool, true, false, ◌∷◌, [], List, Option, none, ◌++◌, is_empty, if◌then◌else◌,
  Bool-cases, inl, inr, arith,
}
use lalo_lao_alo.Common.{Time}
use lalo_lao_alo.Text.{Text, text, text_eq, text_eq_iff}
use lalo_lao_alo.Auth.Tokens.{
  Jwt, Claims, Fallible, fine, fails, missing_token, wrong_type, Parsed, valid, expired, malformed,
  JwtService, validate, claims_of, authenticate, admitted, is_access,
}
use lalo_lao_alo.Auth.Pairs.{bearing, extract_token-bearing}
use lalo_lao_alo.Signaling.Hub.{Client}
use lalo_lao_alo.Signaling.Handler.{
  WsRequest, Upgrader, ChecksOrigin, check_origin, is_listed, bearer_token, ws_token, invalid_token,
  access_token_required, missing_authentication_token, Served, rejected, connected, upgraded,
  claimed, serve_ws,
}

-- The two ways to show a token.
abbrev pub showing : Bool → Text → Text → WsRequest
showing true token origin = record { query_token = token; authorization = []; origin = origin }
showing false token origin = record {
  query_token = [];
  authorization = text "Bearer " ++ token;
  origin = origin;
}

bearer_token-Bearer : (token : Text) → bearer_token (text "Bearer " ++ token) ≡ token
bearer_token-Bearer [] = refl
bearer_token-Bearer (c ∷ token) = ground arith

ws_token-showing : (b : Bool) (token origin : Text) → ws_token (showing b token origin) ≡ token
unfolding ws_token
ws_token-showing true [] origin = refl
ws_token-showing true (c ∷ token) origin = refl
ws_token-showing false token origin = bearer_token-Bearer token

-- What `ServeWS` makes of what the API's middleware says.
abbrev pub as_served : Option ℕ → Fallible Claims → Served
as_served conn (fine c) = upgraded c conn
as_served conn (fails missing_token) = rejected missing_authentication_token
as_served conn (fails wrong_type) = rejected access_token_required
as_served conn (fails why) = rejected invalid_token

claimed-admitted :
    (conn : Option ℕ) (p : Parsed)
    → claimed conn (claims_of p) ≡ as_served conn (admitted (claims_of p))
claimed-admitted conn (valid c) = elim (Bool-cases (is_access c.token_type)) [
  | inl e ↦ rw e
  | inr e ↦ rw e
]
claimed-admitted conn expired = refl
claimed-admitted conn malformed = refl

-- A token that is shown to the signaling service, in the query or in a header "Bearer", with any
-- origin, is treated as the middleware of the API treats it in such a header: claims that it admits
-- connect the client as their user and device, as far as the upgrade succeeds, and a token that it
-- refuses as missing, of another type, expired or invalid connects nobody.
pub ws_agrees :
    (jwt : Jwt) (s : JwtService) (u : Upgrader) (allowed : List Text) (t : Time) (b : Bool)
    (token origin : Text)
    → let r = showing b token origin in
      serve_ws jwt s u allowed t r
      ≡ as_served (u.upgrade (check_origin allowed r) r) (authenticate jwt s t (bearing token))
unfolding serve_ws validate authenticate
ws_agrees jwt s u allowed t b token origin =
    rw (ws_token-showing b token origin, extract_token-bearing token) (by_token token)
  where
    conn : Option ℕ
    conn = u.upgrade (check_origin allowed (showing b token origin)) (showing b token origin)

    by_token :
        (w : Text)
        → (if is_empty w
            then rejected missing_authentication_token
            else claimed conn (claims_of (jwt.parse s.secret t w)))
          ≡ as_served conn (
              if is_empty w
              then fails missing_token
              else admitted (claims_of (jwt.parse s.secret t w)))
    by_token [] = refl
    by_token (c ∷ w) = claimed-admitted conn (jwt.parse s.secret t (c ∷ w))

is_listed-Mem : (allowed : List Text) (o : Text) → is_listed allowed o ≡ true → Mem o allowed
is_listed-Mem [] o h = cc
is_listed-Mem (a ∷ rest) o h = elim (Bool-cases (text_eq a o)) [
  | inl e ↦ rw ((text_eq_iff a o).0 e) (mem-cons_self)
  | inr e ↦ mem-cons_of_mem a (is_listed-Mem rest o (ground (arith, h, e)))
]

not_connected : (f : Fallible Claims) (c : Client) → claimed none f ≢ connected c
not_connected (fails e) c h = cc
not_connected (fine k) c h = elim (Bool-cases (is_access k.token_type)) [
  | inl e ↦ ground (arith, h, e)
  | inr e ↦ ground (arith, h, e)
]

-- Where origins are listed and that of the request is not among them, nobody is connected, if the
-- library of the upgrade does what it documents.
pub foreign_origin_refused :
    (jwt : Jwt) (s : JwtService) (u : Upgrader) (a : Text) (rest : List Text) (t : Time)
    (r : WsRequest) (c : Client)
    → ChecksOrigin u
    → ¬ Mem r.origin (a ∷ rest)
    → serve_ws jwt s u (a ∷ rest) t r ≢ connected c
unfolding serve_ws
foreign_origin_refused jwt s u a rest t r c doc h e =
    elim (Bool-cases (is_listed (a ∷ rest) r.origin)) [
      | inl listed ↦ h (is_listed-Mem (a ∷ rest) r.origin listed)
      | inr unlisted ↦
          let none_up : u.upgrade (is_listed (a ∷ rest) r.origin) r ≡ none = rw unlisted (doc r) in
          ground (arith, e, none_up, not_connected (validate jwt s t (ws_token r)) c)
    ]
