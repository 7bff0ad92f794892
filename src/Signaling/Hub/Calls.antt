-- ===== src/Signaling/Hub/Calls.antt =====
-- The handlers of a 1:1 call and its two timeouts: internal/signaling/hub.go. A payload is `none`
-- where the JSON is malformed. `fresh` is the identifier that `uuid.New` returns, `now` the clock.
use lalo_lao_alo.Base.{
  Bool, false, not, ◌&&◌, ◌||◌, [], Option, none, some, ◌==◌, ltb, is_empty, if◌then◌else◌,
}
use lalo_lao_alo.Common.{
  pos, UserId, CallId, Time, is_media_type, is_no_type, EndReason, blank, normal, cancelled,
  declined, ring_timeout, ice_timeout, timeout, glare_lost, Error, user_busy, is_zero,
}
use lalo_lao_alo.CallState.{ringing, connecting, active, ended, cleanup, is}
use lalo_lao_alo.Events.{Event}
use lalo_lao_alo.Redis.{CallSession, Sdp}
use lalo_lao_alo.Session.{unset_path}
use lalo_lao_alo.Signaling.Store
use lalo_lao_alo.Signaling.Message.{
  Code, CallInitiate, CallAccept, CallReject, is_valid_sdp, incoming_call, call_accepted,
  call_rejected, call_ended, call_cancelled, call_glare, call_accepted_elsewhere,
}
use lalo_lao_alo.Signaling.Hub.{
  Client, Action, skip, ◌⨾◌, asking, send_error, send_to_user, send_to_user_except, publish,
}

abbrev pub ringing_session : CallId → UserId → CallInitiate → Time → CallSession
ringing_session c caller_id msg now = record {
  call_id = c;
  caller_id = caller_id;
  callee_id = msg.callee_id;
  call_type = msg.call_type;
  state = ringing;
  sdp_offer = msg.sdp_offer;
  sdp_answer = [];
  started_at = now;
  answered_at = 0;
  ended_at = 0;
  end_reason = blank;
}

-- The branch of `resolveGlare` in which the caller has the lower identifier: the call that rings
-- is ended and a new one takes its place. Where the new one cannot be created the source returns
-- before it tells the other user.
unfoldable pub replace_call : Time → CallId → Client → CallSession → CallInitiate → Action
replace_call now fresh caller glare_sess msg =
    asking (Store.end now glare_sess.call_id glare_lost) (λ e. skip) (λ _. skip)
    ⨾ asking (Store.create (ringing_session fresh caller.user_id msg now))
        (λ e. send_error caller Code.internal_error 0)
        (λ _.
          send_to_user msg.callee_id
            (incoming_call fresh caller.user_id msg.sdp_offer msg.call_type)
          ⨾ send_to_user msg.callee_id (
              call_glare (if msg.callee_id == caller.user_id then 0 else glare_sess.call_id) fresh
                caller.user_id))

-- `resolveGlare`: the lower user identifier wins.
unfoldable pub resolve_glare : Time → CallId → Client → CallSession → CallInitiate → Action
resolve_glare now fresh caller glare_sess msg =
    if ltb msg.callee_id caller.user_id
    then send_to_user caller.user_id (call_glare 0 glare_sess.call_id msg.callee_id)
    else replace_call now fresh caller glare_sess msg

abbrev pub glare_or_busy : Time → CallId → Client → CallInitiate → Option CallSession → Action
glare_or_busy now fresh caller msg none = send_error caller Code.busy 0
glare_or_busy now fresh caller msg (some glare_sess) = resolve_glare now fresh caller glare_sess msg

abbrev pub initiate_failed : Time → CallId → Client → CallInitiate → Error → Action
initiate_failed now fresh caller msg user_busy =
    asking (Store.find_glare_call caller.user_id msg.callee_id) (λ e. send_error caller Code.busy 0)
      (glare_or_busy now fresh caller msg)
initiate_failed now fresh caller msg e = send_error caller Code.internal_error 0

-- The goroutine of `ringTimeout` that the source starts here is the input `rings_out` of
-- `Run`.
unfoldable pub handle_call_initiate : Time → CallId → Client → Option CallInitiate → Action
handle_call_initiate now fresh caller none = send_error caller Code.invalid_message 0
handle_call_initiate now fresh caller (some msg) =
    if is_zero msg.callee_id || is_empty msg.sdp_offer || is_no_type msg.call_type
    then send_error caller Code.invalid_message 0
    else if not (is_media_type msg.call_type)
    then send_error caller Code.invalid_message 0
    else if not (is_valid_sdp msg.sdp_offer)
    then send_error caller Code.invalid_sdp 0
    else asking (Store.create (ringing_session fresh caller.user_id msg now))
        (initiate_failed now fresh caller msg)
        (λ _.
          publish (Event.call_initiated fresh caller.user_id msg.callee_id msg.call_type false 0)
          ⨾ send_to_user msg.callee_id
              (incoming_call fresh caller.user_id msg.sdp_offer msg.call_type))

abbrev pub answered_with : Sdp → Time → CallSession → CallSession
answered_with sdp now s = record s { sdp_answer = sdp; answered_at = now }

-- `ended` or `cleanup`.
abbrev pub is_over : CallSession → Bool
is_over s = is s.state ended || is s.state cleanup

unfoldable pub handle_call_accept : Time → Client → Option CallAccept → Action
handle_call_accept now callee none = send_error callee Code.invalid_message 0
handle_call_accept now callee (some msg) =
    asking (Store.get msg.call_id) (λ e. send_error callee Code.not_found msg.call_id)
      (λ s.
        if not (s.callee_id == callee.user_id)
        then send_error callee Code.unauthorized msg.call_id
        else if is_over s
        then send_error callee Code.was_cancelled msg.call_id
        else if not (is_empty msg.sdp_answer) && not (is_valid_sdp msg.sdp_answer)
        then send_error callee Code.invalid_sdp msg.call_id
        else asking
            (Store.transition_state msg.call_id connecting (answered_with msg.sdp_answer now))
            (λ e.
              asking (Store.get msg.call_id)
                (λ e'. send_error callee Code.invalid_state msg.call_id)
                (λ current.
                  if is_over current
                  then send_error callee Code.was_cancelled msg.call_id
                  else send_error callee Code.invalid_state msg.call_id))
            (λ _.
              publish (Event.call_accepted msg.call_id callee.user_id unset_path)
              ⨾ send_to_user s.caller_id (call_accepted msg.call_id msg.sdp_answer)
              ⨾ send_to_user_except callee.user_id callee.device_id
                  (call_accepted_elsewhere msg.call_id callee.device_id)))

abbrev pub or_declined : EndReason → EndReason
or_declined blank = declined
or_declined why = why

unfoldable pub handle_call_reject : Time → Client → Option CallReject → Action
handle_call_reject now callee none = send_error callee Code.invalid_message 0
handle_call_reject now callee (some msg) =
    asking (Store.get msg.call_id) (λ e. send_error callee Code.not_found msg.call_id)
      (λ s.
        if not (s.callee_id == callee.user_id)
        then send_error callee Code.unauthorized msg.call_id
        else asking (Store.end now msg.call_id (or_declined msg.reason)) (λ e. skip)
            (λ _.
              publish (Event.call_rejected msg.call_id 0 (or_declined msg.reason))
              ⨾ send_to_user s.caller_id (call_rejected msg.call_id (or_declined msg.reason))))

-- The other user of a call.
abbrev pub peer_of : UserId → CallSession → UserId
peer_of u s = if u == s.caller_id then s.callee_id else s.caller_id

abbrev pub is_party : UserId → CallSession → Bool
is_party u s = s.caller_id == u || s.callee_id == u

unfoldable pub handle_call_end : Time → Client → Option CallId → Action
handle_call_end now client none = send_error client Code.invalid_message 0
handle_call_end now client (some c) =
    asking (Store.get c) (λ e. send_error client Code.not_found c)
      (λ s.
        if not (is_party client.user_id s)
        then send_error client Code.unauthorized c
        else asking (Store.end now c normal) (λ e. skip)
            (λ _.
              publish (Event.call_ended c normal (pos 0))
              ⨾ send_to_user (peer_of client.user_id s) (call_ended c normal)))

unfoldable pub handle_call_cancel : Time → Client → Option CallId → Action
handle_call_cancel now caller none = send_error caller Code.invalid_message 0
handle_call_cancel now caller (some c) =
    asking (Store.get c) (λ e. send_error caller Code.not_found c)
      (λ s.
        if not (s.caller_id == caller.user_id)
        then send_error caller Code.unauthorized c
        else asking (Store.end now c cancelled) (λ e. skip)
            (λ _. send_to_user s.callee_id (call_cancelled c)))

-- What `ringTimeout` does when its time is up.
unfoldable pub ring_expired : Time → CallId → Action
ring_expired now c =
    asking (Store.get c) (λ e. skip)
      (λ s.
        if not (is s.state ringing)
        then skip
        else asking (Store.end now c ring_timeout) (λ e. skip)
            (λ _.
              send_to_user s.caller_id (call_ended c timeout)
              ⨾ send_to_user s.callee_id (call_ended c timeout)))

unfoldable pub ice_expired : Time → CallId → Action
ice_expired now c =
    asking (Store.get c) (λ e. skip)
      (λ s.
        if not (is s.state connecting)
        then skip
        else asking (Store.end now c ice_timeout) (λ e. skip)
            (λ _.
              send_to_user s.caller_id (call_ended c ice_timeout)
              ⨾ send_to_user s.callee_id (call_ended c ice_timeout)))

-- `PromoteToActive`.
unfoldable pub promote_to_active : CallId → Action
promote_to_active c = asking (Store.transition_state c active (λ s. s)) (λ e. skip) (λ _. skip)
