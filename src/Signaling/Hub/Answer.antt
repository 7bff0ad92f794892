-- ===== src/Signaling/Hub/Answer.antt =====
-- A call that is answered, ended, or left to ring: the main paths of internal/signaling/hub.go.
use lalo_lao_alo.Base.{true, false, [], ◌∷◌, ◌++◌, some, update, ◌≡◌, ◌≢◌, refl, arith}
use lalo_lao_alo.Common.{pos, CallId, Time, normal}
use lalo_lao_alo.CallState.{ringing, connecting, active, is, transition}
use lalo_lao_alo.CallState.Diagram.{is_live}
use lalo_lao_alo.Events.{Event}
use lalo_lao_alo.Session.{unset_path}
use lalo_lao_alo.Redis.{CallSession, call}
use lalo_lao_alo.Signaling.Store
use lalo_lao_alo.Signaling.Store.Marks.{ticked}
use lalo_lao_alo.Signaling.Store.Laws.{Ended, end_ends}
use lalo_lao_alo.Signaling.Store.Prompt.{Healthy, ticked-Healthy, prompt, end_succeeds}
use lalo_lao_alo.Signaling.Message.{CallAccept, CallReject, is_valid_sdp}
use lalo_lao_alo.Signaling.Hub.{Hub, Client, asking, send_to_user, send_to_user_except, publish}
use lalo_lao_alo.Signaling.Hub.Authority.{
  Untouched, accept_by_other, reject_by_other, end_by_other, cancel_by_other, reconnect_by_other,
}
use lalo_lao_alo.Signaling.Hub.Calls.{
  handle_call_accept, handle_call_reject, handle_call_end, handle_call_cancel, ring_expired,
  ice_expired, is_party, promote_to_active,
}
use lalo_lao_alo.Signaling.Hub.Reconnect.{handle_reconnect}

-- The callee of a stored RINGING call accepts it with a valid SDP answer, and Redis answers every
-- command with no transaction lost: the call is CONNECTING with the answer and the time, no other
-- session and no user's mark has changed, and exactly the acceptance is published.
pub accept_connects :
    (now : Time) (h : Hub) (c : Client) (msg : CallAccept) (s : CallSession)
    → Healthy h.rdb
    → h.rdb.sessions msg.call_id ≡ some (call s)
    → s.state ≡ ringing
    → s.callee_id ≡ c.user_id
    → is_valid_sdp msg.sdp_answer ≡ true
    → let h' = handle_call_accept now c (some msg) h in
      (h'.rdb.sessions
        ≡ update h.rdb.sessions msg.call_id (
            some (
              call
                (record s { state = connecting; sdp_answer = msg.sdp_answer; answered_at = now }))))
      × (h'.rdb.call_of ≡ h.rdb.call_of)
      × (h'.published ≡ h.published ++ Event.call_accepted msg.call_id c.user_id unset_path ∷ [])
unfolding handle_call_accept publish send_to_user send_to_user_except asking Store.get
    Store.transition_state transition
accept_connects now h c msg s well stored rings mine valid = ground (arith, prompt well)

-- A client who is neither caller nor callee of the stored call that its accept, reject, end, cancel
-- or reconnect request names changes with it no session, mark, grace timer, candidate buffer or
-- published event.
pub outsider_changes_nothing :
    (now : Time) (h : Hub) (c : Client) (s : CallSession) (accept : CallAccept)
    (reject : CallReject) (id : CallId)
    → h.rdb.sessions accept.call_id ≡ some (call s)
    → h.rdb.sessions reject.call_id ≡ some (call s)
    → h.rdb.sessions id ≡ some (call s)
    → s.caller_id ≢ c.user_id
    → s.callee_id ≢ c.user_id
    → Untouched h (handle_call_accept now c (some accept) h)
      × Untouched h (handle_call_reject now c (some reject) h)
      × Untouched h (handle_call_end now c (some id) h)
      × Untouched h (handle_call_cancel now c (some id) h)
      × Untouched h (handle_reconnect c (some id) h)
outsider_changes_nothing now h c s accept reject id ha hr hi n m = (
  accept_by_other now h c s accept ha m,
  reject_by_other now h c s reject hr m,
  end_by_other now h c s id hi n m,
  cancel_by_other now h c s id hi n,
  reconnect_by_other now h c s id hi n m,
)

-- When the ring timeout of a call comes and the call is not RINGING, nothing happens to it.
pub ring_expired_spares :
    (now : Time) (h : Hub) (c : CallId) (s : CallSession)
    → h.rdb.sessions c ≡ some (call s)
    → is s.state ringing ≡ false
    → Untouched h (ring_expired now c h) × ((ring_expired now c h).outbox ≡ h.outbox)
unfolding ring_expired asking Store.get
ring_expired_spares now h c s e n = ground arith

-- When the ICE timeout of a call comes and the call is not CONNECTING, nothing happens to it.
pub ice_expired_spares :
    (now : Time) (h : Hub) (c : CallId) (s : CallSession)
    → h.rdb.sessions c ≡ some (call s)
    → is s.state connecting ≡ false
    → Untouched h (ice_expired now c h) × ((ice_expired now c h).outbox ≡ h.outbox)
unfolding ice_expired asking Store.get
ice_expired_spares now h c s e n = ground arith

-- A party of a stored live call asks to end it, and Redis answers every command with no transaction
-- lost: the call is ENDED with the reason `normal` and the time, no other session has changed, both
-- users are free, and exactly the end of the call is published.
end_by_party :
    (now : Time) (h : Hub) (c : Client) (id : CallId) (s : CallSession)
    → Healthy h.rdb
    → h.rdb.sessions id ≡ some (call s)
    → is_live s.state ≡ true
    → is_party c.user_id s ≡ true
    → let h' = handle_call_end now c (some id) h in
      Ended now id normal s h.rdb h'.rdb
      × (h'.published ≡ h.published ++ Event.call_ended id normal (pos 0) ∷ [])
unfolding handle_call_end publish send_to_user asking Store.get
end_by_party now h c id s well stored live party =
    let done = end_succeeds now id normal (ticked h.rdb) s (ticked-Healthy well) stored live in
    let over = end_ends now id normal (ticked h.rdb) done in
    let same : over.0 ≡ s = ground (arith, over.1) in
    ground (arith, prompt well, done, over.2, same)

-- Under the conditions of `accept_connects`, when the ring timeout of the accepted call comes it
-- changes no session, mark, grace timer, candidate buffer or published event, and sends nothing.
ring_timeout_after_accept :
    (now later : Time) (h : Hub) (c : Client) (msg : CallAccept) (s : CallSession)
    → Healthy h.rdb
    → h.rdb.sessions msg.call_id ≡ some (call s)
    → s.state ≡ ringing
    → s.callee_id ≡ c.user_id
    → is_valid_sdp msg.sdp_answer ≡ true
    → let h' = handle_call_accept now c (some msg) h in
      Untouched h' (ring_expired later msg.call_id h')
      × ((ring_expired later msg.call_id h').outbox ≡ h'.outbox)
ring_timeout_after_accept now later h c msg s well stored rings mine valid =
    ring_expired_spares later (handle_call_accept now c (some msg) h) msg.call_id
      (record s { state = connecting; sdp_answer = msg.sdp_answer; answered_at = now })
      (ground (arith, accept_connects now h c msg s well stored rings mine valid)) refl

-- Media flows in a stored CONNECTING call, and Redis answers every command with no transaction lost:
-- when the ICE timeout of the call comes after that, it changes no session, mark, grace timer,
-- candidate buffer or published event, and sends nothing.
ice_timeout_after_promotion :
    (later : Time) (h : Hub) (c : CallId) (s : CallSession)
    → Healthy h.rdb
    → h.rdb.sessions c ≡ some (call s)
    → s.state ≡ connecting
    → let h' = promote_to_active c h in
      Untouched h' (ice_expired later c h') × ((ice_expired later c h').outbox ≡ h'.outbox)
unfolding promote_to_active asking Store.get Store.transition_state transition
ice_timeout_after_promotion later h c s well stored connects =
    ice_expired_spares later (promote_to_active c h) c (record s { state = active })
      (ground (arith, prompt well)) refl
