-- ===== src/Signaling/Hub/Authority.antt =====
-- Who may change a call: the guards of the handlers in internal/signaling/hub.go.
use lalo_lao_alo.Base.{false, [], ◌∷◌, ◌++◌, some, ◌≡◌, ◌≢◌, arith}
use lalo_lao_alo.Common.{CallId, Time}
use lalo_lao_alo.CallState.{ended}
use lalo_lao_alo.Redis.{CallSession, call}
use lalo_lao_alo.Signaling.Store
use lalo_lao_alo.Signaling.Message.{Code, error, CallAccept, CallReject}
use lalo_lao_alo.Signaling.Hub.{Hub, Client, asking, send_error}
use lalo_lao_alo.Signaling.Hub.Calls.{
  handle_call_accept, handle_call_reject, handle_call_end, handle_call_cancel,
}
use lalo_lao_alo.Signaling.Hub.Reconnect.{handle_reconnect}

-- Nothing has changed but the count of Redis commands and what was sent.
pub record Untouched (h k : Hub) : Type 0 where
  pub sessions : k.rdb.sessions ≡ h.rdb.sessions
  pub call_of : k.rdb.call_of ≡ h.rdb.call_of
  pub published : k.published ≡ h.published
  pub timers : k.timers ≡ h.timers
  pub buffers : k.ice_buf ≡ h.ice_buf

module _ (now : Time) (h : Hub) (c : Client) (s : CallSession) where
  pub accept_by_other :
      (msg : CallAccept)
      → h.rdb.sessions msg.call_id ≡ some (call s)
      → s.callee_id ≢ c.user_id
      → Untouched h (handle_call_accept now c (some msg) h)
  unfolding handle_call_accept asking send_error Store.get
  accept_by_other msg e n = ground arith

  pub reject_by_other :
      (msg : CallReject)
      → h.rdb.sessions msg.call_id ≡ some (call s)
      → s.callee_id ≢ c.user_id
      → Untouched h (handle_call_reject now c (some msg) h)
  unfolding handle_call_reject asking send_error Store.get
  reject_by_other msg e n = ground arith

  pub end_by_other :
      (id : CallId)
      → h.rdb.sessions id ≡ some (call s)
      → s.caller_id ≢ c.user_id
      → s.callee_id ≢ c.user_id
      → Untouched h (handle_call_end now c (some id) h)
  unfolding handle_call_end asking send_error Store.get
  end_by_other id e n m = ground arith

  pub cancel_by_other :
      (id : CallId)
      → h.rdb.sessions id ≡ some (call s)
      → s.caller_id ≢ c.user_id
      → Untouched h (handle_call_cancel now c (some id) h)
  unfolding handle_call_cancel asking send_error Store.get
  cancel_by_other id e n = ground arith

  pub reconnect_by_other :
      (id : CallId)
      → h.rdb.sessions id ≡ some (call s)
      → s.caller_id ≢ c.user_id
      → s.callee_id ≢ c.user_id
      → Untouched h (handle_reconnect c (some id) h)
  unfolding handle_reconnect asking send_error Store.get
  reconnect_by_other id e n m = ground arith

  -- The callee of a stored ENDED call accepts it, and the next Redis command does not fail: no
  -- session, mark, grace timer, candidate buffer or published event changes, and the one message
  -- sent is the error that the call was cancelled, to that client.
  accept_after_end :
      (msg : CallAccept)
      → h.rdb.sessions msg.call_id ≡ some (call s)
      → s.callee_id ≡ c.user_id
      → s.state ≡ ended
      → h.rdb.fails h.rdb.commands ≡ false
      → Untouched h (handle_call_accept now c (some msg) h)
        × ((handle_call_accept now c (some msg) h).outbox
            ≡ h.outbox
              ++ record { to = c; seq = 0; message = error Code.was_cancelled msg.call_id } ∷ [])
  unfolding handle_call_accept asking send_error Store.get
  accept_after_end msg e p q f = (ground arith, ground arith)
