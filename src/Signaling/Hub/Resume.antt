-- ===== src/Signaling/Hub/Resume.antt =====
-- A connection that is lost and comes back: the grace period of internal/signaling/hub.go.
use lalo_lao_alo.Base.{ℕ, suc, true, [], ◌∷◌, ◌++◌, map, none, some, update, ◌≡◌, ◌≢◌, arith}
use lalo_lao_alo.Common.{UserId, CallId, Time}
use lalo_lao_alo.CallState.{connecting, active, reconnecting, transition}
use lalo_lao_alo.Redis.{CallSession, call}
use lalo_lao_alo.Signaling.Store
use lalo_lao_alo.Signaling.Store.Prompt.{Healthy, prompt}
use lalo_lao_alo.Signaling.Message.{session_resumed, peer_reconnected}
use lalo_lao_alo.Signaling.Hub.{Hub, Client, skip, asking, send, send_to_user, deliver}
use lalo_lao_alo.Signaling.Hub.Authority.{Untouched}
use lalo_lao_alo.Signaling.Hub.Calls.{peer_of, is_party}
use lalo_lao_alo.Signaling.Hub.Ice.{candidate_to, flush_ice_buffer}
use lalo_lao_alo.Signaling.Hub.Reconnect.{
  start_grace_period, start_timer, cancel_grace_period, grace_expired, handle_reconnect,
}

-- A user whose marked call is stored as CONNECTING goes offline: `startGracePeriod`, where nothing is
-- done in its place, changes no session, mark, timer, candidate buffer or published event, because
-- the state machine refuses RECONNECTING.
connecting_gets_no_grace :
    (u : UserId) (h : Hub) (c : CallId) (s : CallSession)
    → h.rdb.call_of u ≡ some c
    → h.rdb.sessions c ≡ some (call s)
    → s.state ≡ connecting
    → Untouched h (start_grace_period u skip h)
unfolding start_grace_period asking Store.get_user_active_call Store.get Store.transition_state
    transition
connecting_gets_no_grace u h c s m e q = ground arith

-- A user whose marked call is stored as ACTIVE goes offline, and Redis answers every command with no
-- transaction lost: after `startGracePeriod` the call is RECONNECTING, no other session has changed,
-- and a new timer runs with the user, the call and the other party, which the user's entry names.
active_gets_grace :
    (u : UserId) (h : Hub) (c : CallId) (s : CallSession)
    → Healthy h.rdb
    → h.rdb.call_of u ≡ some c
    → h.rdb.sessions c ≡ some (call s)
    → s.state ≡ active
    → let h' = start_grace_period u skip h in
      (h'.rdb.sessions ≡ update h.rdb.sessions c (some (call (record s { state = reconnecting }))))
      × (h'.grace u ≡ some h.next_timer)
      × (h'.timers h.next_timer ≡ some (record { user_id = u; call_id = c; peer_id = peer_of u s }))
unfolding start_grace_period start_timer send_to_user asking Store.get_user_active_call Store.get
    Store.transition_state transition
active_gets_grace u h c s v m e q = ground (arith, prompt v)

-- A user's grace timer that `cancelGracePeriod` has cancelled changes nothing in the hub when its
-- time is up.
cancelled_timer_is_inert :
    (now : Time) (u : UserId) (n : ℕ) (h : Hub)
    → h.grace u ≡ some n
    → grace_expired now n (cancel_grace_period u h) ≡ cancel_grace_period u h
unfolding grace_expired cancel_grace_period
cancelled_timer_is_inert now u n h e = ground arith

module _ (client : Client) (c : CallId) (s : CallSession) (h : Hub) (n : ℕ) (well : Healthy h.rdb)
    (stored : h.rdb.sessions c ≡ some (call s)) (named : c ≢ 0)
    (party : is_party client.user_id s ≡ true) (waits : s.state ≡ reconnecting)
    (timed : h.grace client.user_id ≡ some n) where
  -- A party of a stored RECONNECTING call, whose identifier is not empty, asks to reconnect while its
  -- grace timer runs, and Redis answers every command with no transaction lost. Then the call is
  -- ACTIVE with the other sessions as they were, the timer is gone, the call's candidate buffer is
  -- empty, and what is sent is `session_resumed` to the client, `peer_reconnected` to every device
  -- of the other party, and every buffered candidate to the client in the order of arrival.
  pub reconnect_resumes :
      let h' = handle_reconnect client (some c) h in
      let peer = peer_of client.user_id s in
      (h'.rdb.sessions ≡ update h.rdb.sessions c (some (call (record s { state = active }))))
      × (h'.timers n ≡ none)
      × (h'.ice_buf c ≡ [])
      × (h'.outbox
          ≡ ((h.outbox
                ++ record { to = client; seq = 0; message = session_resumed c active peer } ∷ [])
              ++ deliver
                  (suc (h.seq_counters peer))
                  (peer_reconnected c client.user_id)
                  (h.clients peer))
            ++ map (candidate_to client) (h.ice_buf c))
  unfolding handle_reconnect cancel_grace_period flush_ice_buffer send send_to_user asking Store.get
      Store.transition_state transition
  reconnect_resumes = ground (arith, prompt well)
