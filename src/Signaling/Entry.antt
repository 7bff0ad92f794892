-- ===== src/Signaling/Entry.antt =====
-- Who enters the hub through the signaling server: internal/signaling/server.go and handler.go with the
-- `register` case of hub.go.
use lalo_lao_alo.Base.{
  ℕ, ◌≡◌, refl, Bool, true, false, not, ◌&&◌, List, Option, none, some, ◌==◌, is_empty,
  if◌then◌else◌, inl, inr, Bool-cases, arith,
}
use lalo_lao_alo.Common.{UserId, DeviceId, Time}
use lalo_lao_alo.Text.{Text, text, text_eq}
use lalo_lao_alo.Auth.Tokens.{Jwt, JwtService, Claims, Fallible, fine, fails, validate, is_access}
use lalo_lao_alo.Orchestrator.Store.{is_some}
use lalo_lao_alo.Signaling.Hub.{Hub, Client}
use lalo_lao_alo.Signaling.Hub.Connections.{get_client_device, registered_found}
use lalo_lao_alo.Signaling.Handler.{
  Upgrader, WsRequest, Served, rejected, not_upgraded, connected, check_origin, ws_token, claimed,
  serve_ws, enter,
}
use lalo_lao_alo.Signaling.Server.{Answer, of_ws, serve}

-- The connection that an answer is about.
abbrev pub entrant : Answer → Option Client
entrant (of_ws (connected c)) = some c
entrant a = none

-- Who stands for a user and a device, where a connection may take their place.
abbrev pub in_place : UserId → DeviceId → Option Client → Option Client → Option Client
in_place v e none before = before
in_place v e (some c) before = if c.user_id == v && c.device_id == e then some c else before

-- Whether a connection is one of a user and a device that an access token names.
abbrev pub is_named : Fallible Claims → Option Client → Bool
is_named a none = true
is_named (fails why) (some c) = false
is_named (fine k) (some c) =
    is_access k.token_type && (c.user_id == k.user_id && c.device_id == k.device_id)

-- Whether an access token has been shown.
abbrev pub is_admitted : Fallible Claims → Bool
is_admitted (fails why) = false
is_admitted (fine k) = is_access k.token_type

enter_lem :
    (x : Served) (h : Hub) (v : UserId) (e : DeviceId)
    → get_client_device v e (enter x h) ≡ in_place v e (entrant (of_ws x)) (get_client_device v e h)
enter_lem (rejected why) h v e = refl
enter_lem not_upgraded h v e = refl
enter_lem (connected c) h v e = registered_found c h v e

claimed_named :
    (conn : Option ℕ) (a : Fallible Claims) → is_named a (entrant (of_ws (claimed conn a))) ≡ true
claimed_named conn (fails why) = refl
claimed_named none (fine k) = elim (Bool-cases (is_access k.token_type)) [
  | inl y ↦ rw y refl
  | inr n ↦ rw n refl
]
claimed_named (some i) (fine k) = elim (Bool-cases (is_access k.token_type)) [
  | inl y ↦ rw y (ground arith)
  | inr n ↦ rw n refl
]

served_named :
    (jwt : Jwt) (s : JwtService) (up : Upgrader) (allowed : List Text) (now : Time) (r : WsRequest)
    → is_named (validate jwt s now (ws_token r)) (entrant (of_ws (serve_ws jwt s up allowed now r)))
      ≡ true
unfolding serve_ws
served_named jwt s up allowed now r = elim (Bool-cases (is_empty (ws_token r))) [
  | inl y ↦ rw y (unnamed (validate jwt s now (ws_token r)))
  | inr n ↦
      rw n (claimed_named (up.upgrade (check_origin allowed r) r) (validate jwt s now (ws_token r)))
]
  where
    unnamed : (a : Fallible Claims) → is_named a none ≡ true
    unnamed a = refl

entered_iff :
    (conn : Option ℕ) (a : Fallible Claims)
    → is_some (entrant (of_ws (claimed conn a))) ≡ is_admitted a && is_some conn
entered_iff conn (fails why) = refl
entered_iff none (fine k) = elim (Bool-cases (is_access k.token_type)) [
  | inl y ↦ rw y refl
  | inr n ↦ rw n refl
]
entered_iff (some i) (fine k) = elim (Bool-cases (is_access k.token_type)) [
  | inl y ↦ rw y refl
  | inr n ↦ rw n refl
]

served_iff :
    (jwt : Jwt) (s : JwtService) (up : Upgrader) (allowed : List Text) (now : Time) (r : WsRequest)
    → is_some (entrant (of_ws (serve_ws jwt s up allowed now r)))
      ≡ not (is_empty (ws_token r))
        && (is_admitted (validate jwt s now (ws_token r))
            && is_some (up.upgrade (check_origin allowed r) r))
unfolding serve_ws
served_iff jwt s up allowed now r = elim (Bool-cases (is_empty (ws_token r))) [
  | inl y ↦ rw y refl
  | inr n ↦
      rw n (entered_iff (up.upgrade (check_origin allowed r) r) (validate jwt s now (ws_token r)))
]

-- Any request to the signaling server, whatever its path: for every user and device, the hub finds
-- afterwards the connection that the answer is about, if it is theirs, and otherwise who was found
-- before; a connection enters only as the user and the device of an access token that the token
-- service takes; and one enters exactly if the path is "/ws", there is a token, it is such a one, and
-- the request is upgraded.
pub admitted_enters :
    (jwt : Jwt) (s : JwtService) (up : Upgrader) (allowed : List Text) (now : Time) (path : Text)
    (r : WsRequest) (h : Hub) (v : UserId) (e : DeviceId)
    → let x = serve jwt s up allowed now path r h in
      (get_client_device v e x.0 ≡ in_place v e (entrant x.1) (get_client_device v e h))
      × (is_named (validate jwt s now (ws_token r)) (entrant x.1) ≡ true)
      × (is_some (entrant x.1)
          ≡ text_eq path (text "/ws")
            && (not (is_empty (ws_token r))
                && (is_admitted (validate jwt s now (ws_token r))
                    && is_some (up.upgrade (check_origin allowed r) r))))
unfolding serve
admitted_enters jwt s up allowed now path r h v e = elim (Bool-cases (text_eq path (text "/ws"))) [
  | inl y ↦ rw y (
    enter_lem (serve_ws jwt s up allowed now r) h v e,
    served_named jwt s up allowed now r,
    served_iff jwt s up allowed now r,
  )
  | inr n ↦ elim (Bool-cases (text_eq path (text "/health"))) [
    | inl y ↦ rw (n, y) (refl, refl, refl)
    | inr m ↦ rw (n, m) (refl, refl, refl)
  ]
]
