-- ===== src/Push/Server.antt =====
-- The HTTP server of the push gateway: the routes of internal/push/server.go, with the middleware of
-- internal/auth/middleware.go before the handlers.
use lalo_lao_alo.Base.{Bool, Option, some, if◌then◌else◌}
use lalo_lao_alo.Common.{DeviceId, Time}
use lalo_lao_alo.Text.{Text, text, text_eq}
use lalo_lao_alo.Auth.Tokens.{
  Jwt, JwtService, Credentials, Claims, Fallible, fine, fails, authenticate,
}
use lalo_lao_alo.Push.{RegisterRequest}
use lalo_lao_alo.Push.Store.{Table}
use lalo_lao_alo.Push.Handlers.{Answer, register_token, unregister_token}

-- A request; the two bodies are what the decoder makes of the body for either handler, and `refused`
-- says that the database refuses the statement.
pub record PushRequest : Type 0 where
  pub path : Text
  pub is_post : Bool
  pub is_delete : Bool
  pub credentials : Credentials
  pub register_body : Option RegisterRequest
  pub unregister_body : Option DeviceId
  pub refused : Bool

pub data Reply : Type 0 where
  healthy no_route not_authenticated : Reply
  answered : Answer → Reply

abbrev pub answering : Table × Answer → Table × Reply
answering (ts, a) = (ts, answered a)

-- The handler behind the middleware.
abbrev pub behind_auth : (Claims → Table × Answer) → Table → Fallible Claims → Table × Reply
behind_auth handler ts (fails e) = (ts, not_authenticated)
behind_auth handler ts (fine c) = answering (handler c)

unfoldable pub serve : Jwt → JwtService → Time → PushRequest → Table → Table × Reply
serve jwt s now r ts =
    if text_eq r.path (text "/health")
    then (ts, healthy)
    else if text_eq r.path (text "/v1/push/register")
    then behind_auth
        (λ c. register_token now r.refused r.is_post (some c.user_id) r.register_body ts) ts
        (authenticate jwt s now r.credentials)
    else if text_eq r.path (text "/v1/push/unregister")
    then behind_auth
        (λ c. unregister_token now r.refused r.is_delete (some c.user_id) r.unregister_body ts) ts
        (authenticate jwt s now r.credentials)
    else (ts, no_route)
