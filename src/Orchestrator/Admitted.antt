-- ===== src/Orchestrator/Admitted.antt =====
-- What the HTTP server of the orchestrator does for the tokens of a pair: internal/session/server.go
-- with internal/auth/middleware.go, internal/auth/jwt.go and internal/session/handler.go.
use lalo_lao_alo.Base.{
  ℕ, ◌+◌, ◌≡◌, refl, ap, ◌∙◌, Bool, true, false, inl, inr, Bool-cases, List, some, ltb,
  if◌then◌else◌, is_empty,
}
use lalo_lao_alo.Common.{UserId, DeviceId, Time}
use lalo_lao_alo.Text.{Text, text, text_eq, text_eq_iff}
use lalo_lao_alo.Auth.Tokens.{
  Jwt, JwtService, Documented, Claims, TokenPair, Fallible, fine, expired_token, wrong_type,
  authenticate, issue_token_pair,
}
use lalo_lao_alo.Auth.Pairs.{bearing, pair_round_trip}
use lalo_lao_alo.Orchestrator.Services.{Services}
use lalo_lao_alo.Orchestrator.Api.{Request, Outside}
use lalo_lao_alo.Orchestrator.Api.Router.{serve}
use lalo_lao_alo.Orchestrator.Server.{
  ServerReply, not_authenticated, of_api, AuthHandler, is_api, api_behind, serve_all,
}

not_other :
    (path other : Text) → is_api other ≡ false → is_api path ≡ true → text_eq path other ≡ false
not_other path other n y = elim (Bool-cases (text_eq path other)) [
  | inl e ↦ absurd (cc (n, y, ap is_api ((text_eq_iff path other).0 e)))
  | inr e ↦ e
]

serve_all-api :
    (jwt : Jwt) (s : JwtService) (h : AuthHandler) (o : Outside) (token : Text) (r : Request)
    (w : Services) (a : Fallible Claims)
    → is_api r.path ≡ true
    → authenticate jwt s o.now (bearing token) ≡ a
    → serve_all jwt s h o (bearing token) r w ≡ api_behind o r w a
unfolding serve_all
serve_all-api jwt s h o token r w a p e =
    rw (not_other r.path (text "/health") refl p)
      (rw (not_other r.path (text "/webhook/livekit") refl p) (rw p (rw e refl)))

-- What the API does for a user, as the server's answer.
abbrev pub served_as : UserId → Outside → Request → Services → Services × ServerReply
served_as u o r w = let x = serve o (record r { claims = some u }) w in (x.0, of_api x.1)

if_behind :
    (b : Bool) (o : Outside) (r : Request) (w : Services) (x y : Fallible Claims)
    → api_behind o r w (if b then x else y) ≡ (if b then api_behind o r w x else api_behind o r w y)
if_behind true o r w x y = refl
if_behind false o r w x y = refl

-- A request on a path of the sessions or the rooms, with a token of the pair that was issued at
-- `now`, where the library of tokens does what it documents and no token is empty. With the access
-- token it is served as a request of the pair's user until the token expires, and after that it
-- changes nothing and is told that the token has expired. With the refresh token it changes nothing,
-- and is told that the type is wrong, or that the token has expired.
pub pair_served :
    (jwt : Jwt) (s : JwtService) (h : AuthHandler) (now : Time) (ids : ℕ × ℕ) (u : UserId)
    (d : DeviceId) (permissions : List Text) (pair : TokenPair) (o : Outside) (r : Request)
    (w : Services)
    → Documented jwt
    → issue_token_pair jwt s now ids u d permissions ≡ fine pair
    → is_empty pair.access_token ≡ false
    → is_empty pair.refresh_token ≡ false
    → is_api r.path ≡ true
    → (serve_all jwt s h o (bearing pair.access_token) r w ≡ (
        if ltb o.now (now + s.access_token_expiry)
        then served_as u o r w
        else (w, not_authenticated expired_token)))
      × (serve_all jwt s h o (bearing pair.refresh_token) r w ≡ (
          if ltb o.now (now + s.refresh_token_expiry)
          then (w, not_authenticated wrong_type)
          else (w, not_authenticated expired_token)))
pair_served jwt s h now ids u d permissions pair o r w doc issued na nr p =
    let trip = pair_round_trip jwt s now o.now ids ids u d permissions pair doc issued na nr in
    (
      serve_all-api jwt s h o pair.access_token r w _ p trip.0 ∙ if_behind _ o r w _ _,
      serve_all-api jwt s h o pair.refresh_token r w _ p trip.1 ∙ if_behind _ o r w _ _,
    )
