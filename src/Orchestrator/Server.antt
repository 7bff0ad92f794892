-- ===== src/Orchestrator/Server.antt =====
-- The HTTP server of the orchestrator: the routes of `Start` in internal/session/server.go, with the
-- middleware of internal/auth/middleware.go before the handler. The handler of the API of tokens is
-- not in the repository and is a parameter.
use lalo_lao_alo.Base.{ℕ, Bool, ◌||◌, Option, none, some, length, if◌then◌else◌}
use lalo_lao_alo.Text.{Text, text, text_eq, take}
use lalo_lao_alo.Auth.Tokens.{
  Jwt, JwtService, Credentials, Claims, TokenError, Fallible, fine, fails, authenticate,
}
use lalo_lao_alo.Orchestrator.Services.{Services}
use lalo_lao_alo.Orchestrator.Api.{Request, Reply, Outside}
use lalo_lao_alo.Orchestrator.Api.Router.{serve}

pub data ServerReply : Type 0 where
  healthy webhook_ignored no_route : ServerReply
  not_authenticated : TokenError → ServerReply
  of_api : Reply → ServerReply
  of_auth : ℕ → ServerReply

-- The handler of `auth.NewHTTPHandler`, with the claims that the middleware has found, if it ran.
abbrev pub AuthHandler : Type 0
AuthHandler = Option Claims → Request → ℕ

abbrev pub starts_with : Text → Text → Bool
starts_with path prefix = text_eq (take (length prefix) path) prefix

abbrev pub is_api : Text → Bool
is_api path =
    text_eq path (text "/api/v1/sessions")
    || starts_with path (text "/api/v1/sessions/")
    || text_eq path (text "/api/v1/rooms")
    || starts_with path (text "/api/v1/rooms/")

abbrev pub is_open_auth : Text → Bool
is_open_auth path =
    text_eq path (text "/api/v1/auth/login")
    || text_eq path (text "/api/v1/auth/refresh")
    || text_eq path (text "/v1/auth/login")
    || text_eq path (text "/v1/auth/refresh")

abbrev pub is_me : Text → Bool
is_me path = text_eq path (text "/api/v1/auth/me") || text_eq path (text "/v1/auth/me")

-- The middleware puts the user of the claims into the context.
abbrev pub api_behind : Outside → Request → Services → Fallible Claims → Services × ServerReply
api_behind o r w (fails e) = (w, not_authenticated e)
api_behind o r w (fine c) =
    let x = serve o (record r { claims = some c.user_id }) w in (x.0, of_api x.1)

abbrev pub me_behind : AuthHandler → Request → Fallible Claims → ServerReply
me_behind h r (fails e) = not_authenticated e
me_behind h r (fine c) = of_auth (h (some c) r)

unfoldable pub serve_all :
    Jwt
    → JwtService
    → AuthHandler
    → Outside
    → Credentials
    → Request
    → Services
    → Services × ServerReply
serve_all jwt s h o creds r w =
    if text_eq r.path (text "/health")
    then (w, healthy)
    else if text_eq r.path (text "/webhook/livekit")
    then (w, webhook_ignored)
    else if is_api r.path
    then api_behind o r w (authenticate jwt s o.now creds)
    else if is_open_auth r.path
    then (w, of_auth (h none r))
    else if is_me r.path
    then (w, me_behind h r (authenticate jwt s o.now creds))
    else (w, no_route)
