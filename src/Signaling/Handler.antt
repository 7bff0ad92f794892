-- ===== src/Signaling/Handler.antt =====
-- A client connects: `NewHandler` and `ServeWS` of internal/signaling/handler.go, with the client that
-- the hub registers. The upgrade to a WebSocket is the library's and a parameter.
use lalo_lao_alo.Base.{
  ℕ, Bool, true, false, ◌&&◌, ◌||◌, List, [], ◌∷◌, Option, none, some, ltb, length, drop, is_empty,
  if◌then◌else◌, ◌≡◌,
}
use lalo_lao_alo.Common.{Time}
use lalo_lao_alo.Text.{Text, text, text_eq, take}
use lalo_lao_alo.Auth.Tokens.{Jwt, JwtService, Claims, Fallible, fine, fails, validate, is_access}
use lalo_lao_alo.Signaling.Hub.{Hub, Client}
use lalo_lao_alo.Signaling.Hub.Reconnect.{register}

-- The query parameter "token" and the headers "Authorization" and "Origin", empty where absent.
pub record WsRequest : Type 0 where
  pub query_token : Text
  pub authorization : Text
  pub origin : Text

-- `Upgrade` of the library, on what `CheckOrigin` says of the request: the connection, if there is
-- one.
pub record Upgrader : Type 0 where
  pub upgrade : Bool → WsRequest → Option ℕ

-- The library documents that it fails where `CheckOrigin` returns false.
abbrev pub ChecksOrigin : Upgrader → Type 0
ChecksOrigin u = (r : WsRequest) → u.upgrade false r ≡ none

abbrev pub is_listed : List Text → Text → Bool
is_listed [] o = false
is_listed (a ∷ rest) o = text_eq a o || is_listed rest o

-- `CheckOrigin` as `NewHandler` sets it: every origin, where none is listed.
unfoldable pub check_origin : List Text → WsRequest → Bool
check_origin allowed r = if is_empty allowed then true else is_listed allowed r.origin

abbrev pub bearer_token : Text → Text
bearer_token header =
    if ltb 7 (length header) && text_eq (take 7 header) (text "Bearer ") then drop 7 header else []

-- The query comes first.
unfoldable pub ws_token : WsRequest → Text
ws_token r = if is_empty r.query_token then bearer_token r.authorization else r.query_token

-- The answers with the status 401, by their texts.
pub data Rejection : Type 0 where
  missing_authentication_token invalid_token access_token_required : Rejection

pub data Served : Type 0 where
  rejected : Rejection → Served
  not_upgraded : Served
  connected : Client → Served

abbrev pub upgraded : Claims → Option ℕ → Served
upgraded c none = not_upgraded
upgraded c (some conn) =
    connected (record { user_id = c.user_id; device_id = c.device_id; conn = conn })

abbrev pub claimed : Option ℕ → Fallible Claims → Served
claimed conn (fails e) = rejected invalid_token
claimed conn (fine c) =
    if is_access c.token_type then upgraded c conn else rejected access_token_required

unfoldable pub serve_ws : Jwt → JwtService → Upgrader → List Text → Time → WsRequest → Served
unfolding check_origin
serve_ws jwt s u allowed now r =
    if is_empty (ws_token r)
    then rejected missing_authentication_token
    else claimed (u.upgrade (check_origin allowed r) r) (validate jwt s now (ws_token r))

-- `h.hub.register <- client`.
abbrev pub enter : Served → Hub → Hub
enter (rejected why) h = h
enter not_upgraded h = h
enter (connected c) h = register c h
