-- ===== src/Signaling/Hub/Reachable.antt =====
-- What holds of the hub (internal/signaling/hub.go) after any sequence of inputs.
use lalo_lao_alo.Base.{true, List, [], ◌∷◌, Option, none, some, ◌≡◌, ◌⊎◌, arith}
use lalo_lao_alo.Common.{UserId, CallId}
use lalo_lao_alo.CallState.Diagram.{is_live}
use lalo_lao_alo.Redis.{CallSession, call}
use lalo_lao_alo.Signaling.Store.Marks.{Marked, live_calls_disjoint}
use lalo_lao_alo.Signaling.Hub.{Hub, Client}
use lalo_lao_alo.Signaling.Hub.Keeps.{Keeps, kept, keeping, KeepsStore-check_msg_dedup}
use lalo_lao_alo.Signaling.Hub.Invariant.{
  Keeps-handle_call_initiate, Keeps-handle_call_accept, Keeps-handle_call_reject,
  Keeps-handle_call_end, Keeps-handle_call_cancel, Keeps-ring_expired, Keeps-ice_expired,
  Keeps-promote_to_active,
}
use lalo_lao_alo.Signaling.Hub.KeepsRooms.{
  Keeps-handle_room_create, Keeps-handle_room_invite, Keeps-handle_room_join,
  Keeps-handle_room_leave, Keeps-handle_room_end_all, Keeps-handle_media_change,
}
use lalo_lao_alo.Signaling.Hub.Run.{
  QualityMetrics, handle_quality_metrics, Request, Outside, dispatch, Envelope, handle_message,
  Input, step, run, call_initiate, call_accept, call_reject, call_end, call_cancel, reconnect,
  candidate, quality, ping, unknown_type, room_create, room_invite, room_join, room_leave,
  room_end_all, media_change, arrives, departs, says, rings_out, connects_out, media_flows,
  grace_ends, room_grace_ends,
}
use lalo_lao_alo.Signaling.Hub.KeepsReconnect.{
  Keeps-handle_ice_candidate, Keeps-handle_reconnect, Keeps-grace_expired, Keeps-room_grace_expired,
  Keeps-register, Keeps-unregister,
}

Keeps-handle_quality_metrics :
    (client : Client) (m : Option QualityMetrics) → Keeps (handle_quality_metrics client m)
unfolding handle_quality_metrics
Keeps-handle_quality_metrics client none = search keeping
Keeps-handle_quality_metrics client (some msg) = search keeping depth 12

Keeps-dispatch : (o : Outside) (c : Client) (q : Request) → Keeps (dispatch o c q)
unfolding dispatch
Keeps-dispatch o c (call_initiate m) = Keeps-handle_call_initiate o.now o.fresh c m
Keeps-dispatch o c (call_accept m) = Keeps-handle_call_accept o.now c m
Keeps-dispatch o c (call_reject m) = Keeps-handle_call_reject o.now c m
Keeps-dispatch o c (call_end m) = Keeps-handle_call_end o.now c m
Keeps-dispatch o c (call_cancel m) = Keeps-handle_call_cancel o.now c m
Keeps-dispatch o c (reconnect m) = Keeps-handle_reconnect c m
Keeps-dispatch o c (candidate m) = Keeps-handle_ice_candidate c m
Keeps-dispatch o c (quality m) = Keeps-handle_quality_metrics c m
Keeps-dispatch o c ping = search keeping
Keeps-dispatch o c unknown_type = search keeping
Keeps-dispatch o c (room_create m) = Keeps-handle_room_create o.resolve o.now o.fresh o.rate_key c m
Keeps-dispatch o c (room_invite m) = Keeps-handle_room_invite o.resolve c m
Keeps-dispatch o c (room_join m) = Keeps-handle_room_join o.now c m
Keeps-dispatch o c (room_leave m) = Keeps-handle_room_leave o.now c m
Keeps-dispatch o c (room_end_all m) = Keeps-handle_room_end_all o.now c m
Keeps-dispatch o c (media_change m) = Keeps-handle_media_change c m

Keeps-handle_message :
    (o : Outside) (c : Client) (m : Option Envelope) → Keeps (handle_message o c m)
unfolding handle_message
Keeps-handle_message o c none = search keeping
Keeps-handle_message o c (some env) =
    search (keeping, KeepsStore-check_msg_dedup, Keeps-dispatch) depth 12

Keeps-step : (i : Input) → Keeps (step i)
unfolding step
Keeps-step (arrives c) = Keeps-register c
Keeps-step (departs now c) = Keeps-unregister now c
Keeps-step (says o c m) = Keeps-handle_message o c m
Keeps-step (rings_out now c) = Keeps-ring_expired now c
Keeps-step (connects_out now c) = Keeps-ice_expired now c
Keeps-step (media_flows c) = Keeps-promote_to_active c
Keeps-step (grace_ends now n) = Keeps-grace_expired now n
Keeps-step (room_grace_ends now n) = Keeps-room_grace_expired now n

pub run-Marked : (is : List Input) (h : Hub) → Marked h.rdb → Marked (run is h).rdb
unfolding run
run-Marked [] h m = m
run-Marked (i ∷ is) h m = run-Marked is (step i h) (kept (Keeps-step i) h m)

-- From a hub whose Redis holds no session, whatever connections, disconnections, messages of any
-- kind and timeouts follow, and wherever Redis commands fail or transactions are lost: two stored
-- calls that are both live (RINGING, CONNECTING, ACTIVE or RECONNECTING) and that have a user in
-- common, as caller or callee, are one call.
pub run_calls_disjoint :
    (is : List Input) (h : Hub) (c d : CallId) (s t : CallSession) (u : UserId)
    → ((x : CallId) → h.rdb.sessions x ≡ none)
    → (run is h).rdb.sessions c ≡ some (call s)
    → (run is h).rdb.sessions d ≡ some (call t)
    → is_live s.state ≡ true
    → is_live t.state ≡ true
    → (u ≡ s.caller_id) ⊎ (u ≡ s.callee_id)
    → (u ≡ t.caller_id) ⊎ (u ≡ t.callee_id)
    → c ≡ d
run_calls_disjoint is h c d s t u empty =
    live_calls_disjoint (run is h).rdb c d s t u
      (run-Marked is h (λ x v e l. ground (arith, empty x)))
