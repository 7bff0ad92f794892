-- ===== src/Push/Handlers.antt =====
-- The REST API of the push gateway: internal/push/handler.go, and `Validate` of types.go.
use lalo_lao_alo.Base.{ℕ, Bool, true, false, Option, none, some, if◌then◌else◌}
use lalo_lao_alo.Common.{UserId, DeviceId, Time, is_zero}
use lalo_lao_alo.Push.{
  Platform, ios, android, other_platform, PushToken, RegisterRequest, PushError, missing_device_id,
  missing_push_token, invalid_platform,
}
use lalo_lao_alo.Push.Store.{Table, register, registered, unregister}

abbrev pub is_known_platform : Platform → Bool
is_known_platform ios = true
is_known_platform android = true
is_known_platform (other_platform p) = false

unfoldable pub validate : RegisterRequest → Option PushError
validate r =
    if is_zero r.device_id
    then some missing_device_id
    else if is_zero r.push_token
    then some missing_push_token
    else if is_known_platform r.platform
    then none
    else some invalid_platform

pub data Answer : Type 0 where
  method_not_allowed unauthorized invalid_body missing_device not_found database_error : Answer
  invalid : PushError → Answer
  registered_as : PushToken → Answer
  unregistered : Answer

abbrev pub status : Answer → ℕ
status method_not_allowed = 405
status unauthorized = 401
status invalid_body = 400
status missing_device = 400
status not_found = 404
status database_error = 500
status (invalid e) = 400
status (registered_as t) = 200
status unregistered = 200

abbrev pub register_valid :
    Time → Bool → UserId → RegisterRequest → Option PushError → Table → Table × Answer
register_valid now refused u req (some e) ts = (ts, invalid e)
register_valid now refused u req none ts =
    if refused
    then (ts, database_error)
    else (register now u req ts, registered_as (registered u req now))

abbrev pub register_body : Time → Bool → UserId → Option RegisterRequest → Table → Table × Answer
register_body now refused u none ts = (ts, invalid_body)
register_body now refused u (some req) ts = register_valid now refused u req (validate req) ts

abbrev pub register_known :
    Time → Bool → Option UserId → Option RegisterRequest → Table → Table × Answer
register_known now refused none body ts = (ts, unauthorized)
register_known now refused (some u) body ts = register_body now refused u body ts

-- `refused` says that the database refuses the statement, the body is what the decoder makes of it.
unfoldable pub register_token :
    Time → Bool → Bool → Option UserId → Option RegisterRequest → Table → Table × Answer
register_token now refused is_post claims body ts =
    if is_post then register_known now refused claims body ts else (ts, method_not_allowed)

abbrev pub counted : Table × ℕ → Table × Answer
counted (ts, n) = (ts, if is_zero n then not_found else unregistered)

abbrev pub unregister_body : Time → Bool → UserId → Option DeviceId → Table → Table × Answer
unregister_body now refused u none ts = (ts, invalid_body)
unregister_body now refused u (some d) ts =
    if is_zero d
    then (ts, missing_device)
    else if refused
    then (ts, database_error)
    else counted (unregister now u d ts)

abbrev pub unregister_known : Time → Bool → Option UserId → Option DeviceId → Table → Table × Answer
unregister_known now refused none body ts = (ts, unauthorized)
unregister_known now refused (some u) body ts = unregister_body now refused u body ts

unfoldable pub unregister_token :
    Time → Bool → Bool → Option UserId → Option DeviceId → Table → Table × Answer
unregister_token now refused is_delete claims body ts =
    if is_delete then unregister_known now refused claims body ts else (ts, method_not_allowed)
