-- ===== src/Signaling/Hub/Run.antt =====
-- The hub's event loop, `Run` and `handleMessage` of internal/signaling/hub.go: one input after
-- another, in any order. Timeouts are inputs too: the source runs them beside the loop, and each
-- here takes effect as a whole between two inputs.
use lalo_lao_alo.Base.{ℕ, List, [], ◌∷◌, Option, none, some, if◌then◌else◌, is_empty}
use lalo_lao_alo.Common.{CallId, Time, is_zero}
use lalo_lao_alo.Events.{Event}
use lalo_lao_alo.Orchestrator.Calls.{Resolver}
use lalo_lao_alo.Signaling.Store
use lalo_lao_alo.Signaling.Message.{
  CallInitiate, CallAccept, CallReject, IceCandidate, RoomCreate, RoomInvite, MediaChange, Code,
  pong,
}
use lalo_lao_alo.Signaling.Hub.{Client, Action, skip, asking, send, send_error, publish}
use lalo_lao_alo.Signaling.Hub.Calls
use lalo_lao_alo.Signaling.Hub.Ice.{handle_ice_candidate}
use lalo_lao_alo.Signaling.Hub.Reconnect
use lalo_lao_alo.Signaling.Hub.Rooms

-- `handleQualityMetrics`. A sample is a number; the source copies its fields.
pub record QualityMetrics : Type 0 where
  pub call_id : CallId
  pub samples : List ℕ

unfoldable pub handle_quality_metrics : Client → Option QualityMetrics → Action
handle_quality_metrics client none = send_error client Code.invalid_message 0
handle_quality_metrics client (some msg) =
    if is_zero msg.call_id
    then skip
    else if is_empty msg.samples
    then skip
    else publish (Event.quality_metrics msg.call_id client.user_id msg.samples)

-- The types of message, each with its payload.
pub data Request : Type 0 where
  call_initiate : Option CallInitiate → Request
  call_accept : Option CallAccept → Request
  call_reject : Option CallReject → Request
  call_end call_cancel reconnect : Option CallId → Request
  candidate : Option IceCandidate → Request
  quality : Option QualityMetrics → Request
  ping unknown_type : Request
  room_create : Option RoomCreate → Request
  room_invite : Option RoomInvite → Request
  room_join room_leave room_end_all : Option CallId → Request
  media_change : Option MediaChange → Request

-- What the outside decides while a message is handled: the clock, a new identifier, the lookup of
-- identities, and the key of the sender's rate limit.
pub record Outside : Type 0 where
  pub now : Time
  pub fresh : CallId
  pub resolve : Resolver
  pub rate_key : ℕ

unfoldable pub dispatch : Outside → Client → Request → Action
dispatch o c (call_initiate m) = Calls.handle_call_initiate o.now o.fresh c m
dispatch o c (call_accept m) = Calls.handle_call_accept o.now c m
dispatch o c (call_reject m) = Calls.handle_call_reject o.now c m
dispatch o c (call_end m) = Calls.handle_call_end o.now c m
dispatch o c (call_cancel m) = Calls.handle_call_cancel o.now c m
dispatch o c (reconnect m) = Reconnect.handle_reconnect c m
dispatch o c (candidate m) = handle_ice_candidate c m
dispatch o c (quality m) = handle_quality_metrics c m
dispatch o c ping = send c pong
dispatch o c unknown_type = send_error c Code.invalid_message 0
dispatch o c (room_create m) = Rooms.handle_room_create o.resolve o.now o.fresh o.rate_key c m
dispatch o c (room_invite m) = Rooms.handle_room_invite o.resolve c m
dispatch o c (room_join m) = Rooms.handle_room_join o.now c m
dispatch o c (room_leave m) = Rooms.handle_room_leave o.now c m
dispatch o c (room_end_all m) = Rooms.handle_room_end_all o.now c m
dispatch o c (media_change m) = Rooms.handle_media_change c m

pub record Envelope : Type 0 where
  pub msg_id : ℕ
  pub request : Request

unfoldable pub handle_message : Outside → Client → Option Envelope → Action
unfolding dispatch
handle_message o c none = send_error c Code.invalid_message 0
handle_message o c (some env) =
    if is_zero env.msg_id
    then dispatch o c env.request
    else asking (Store.check_msg_dedup env.msg_id) (λ e. dispatch o c env.request)
        (λ dup. if dup then send_error c Code.duplicate 0 else dispatch o c env.request)

pub data Input : Type 0 where
  arrives : Client → Input
  departs : Time → Client → Input
  says : Outside → Client → Option Envelope → Input
  rings_out connects_out : Time → CallId → Input
  media_flows : CallId → Input
  grace_ends room_grace_ends : Time → ℕ → Input

unfoldable pub step : Input → Action
step (arrives c) = Reconnect.register c
step (departs now c) = Reconnect.unregister now c
step (says o c m) = handle_message o c m
step (rings_out now c) = Calls.ring_expired now c
step (connects_out now c) = Calls.ice_expired now c
step (media_flows c) = Calls.promote_to_active c
step (grace_ends now n) = Reconnect.grace_expired now n
step (room_grace_ends now n) = Reconnect.room_grace_expired now n

unfoldable pub run : List Input → Action
run [] h = h
run (i ∷ is) h = run is (step i h)

-- `Stop`: every connection is closed and the context of all goroutines ends, that of the loop and of
-- the timers too.
unfoldable pub stop : Action
stop h = record h { clients = λ u. []; timers = λ n. none; room_timers = λ n. none }
