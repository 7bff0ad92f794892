-- ===== src/Signaling/Hub/Reconnect.antt =====
-- Disconnection, grace periods and reconnection: internal/signaling/hub.go. A timer's context is
-- its number; a timer that was cancelled is no longer in `timers`, and its goroutine does nothing.
use lalo_lao_alo.Base.{
  ℕ, suc, Bool, true, false, not, ◌&&◌, [], ◌∷◌, ◌++◌, Option, none, some, ◌==◌, if◌then◌else◌,
  is_empty, filter, update,
}
use lalo_lao_alo.Common.{pos, UserId, CallId, Time, reconnect_timeout, is_zero}
use lalo_lao_alo.CallState.{connecting, active, reconnecting, is}
use lalo_lao_alo.Events.{Event}
use lalo_lao_alo.Signaling.Store
use lalo_lao_alo.Signaling.Message.{
  Code, session_resumed, peer_reconnecting, peer_reconnected, state_sync, call_ended, calling,
  called,
}
use lalo_lao_alo.Signaling.Hub.{
  Client, GraceTimer, Action, skip, ◌⨾◌, asking, send, send_error, send_to_user, publish,
  is_user_online,
}
use lalo_lao_alo.Signaling.Hub.Calls.{peer_of, is_party}
use lalo_lao_alo.Signaling.Hub.Ice.{clear_ice_buffer, flush_ice_buffer}
use lalo_lao_alo.Signaling.Hub.Membership.{get_user_rooms, remove_from_all_rooms}

abbrev pub stop : {A : Type 0} → Option ℕ → (ℕ → Option A) → ℕ → Option A
stop none timers = timers
stop (some n) timers = update timers n none

-- Start a timer for a user; an older one of the user is cancelled.
unfoldable pub start_timer : GraceTimer → Action
start_timer t h = record h {
  grace = update h.grace t.user_id (some h.next_timer);
  timers = update (stop (h.grace t.user_id) h.timers) h.next_timer (some t);
  next_timer = suc h.next_timer;
}

-- `startGracePeriod`; `otherwise` is what `Run` does where it returns false.
abbrev pub grace_of : UserId → Action → Option CallId → Action
grace_of u otherwise none = otherwise
grace_of u otherwise (some c) =
    asking (Store.get c) (λ e. otherwise)
      (λ s.
        if not (is s.state active) && not (is s.state connecting)
        then otherwise
        else asking (Store.transition_state c reconnecting (λ t. t)) (λ e. otherwise)
            (λ _.
              send_to_user (peer_of u s) (peer_reconnecting c u)
              ⨾ start_timer (record { user_id = u; call_id = c; peer_id = peer_of u s })))

unfoldable pub start_grace_period : UserId → Action → Action
start_grace_period u otherwise =
    asking (Store.get_user_active_call u) (λ e. otherwise) (grace_of u otherwise)

unfoldable pub cancel_grace_period : UserId → Action
cancel_grace_period u h = record h {
  grace = update h.grace u none;
  timers = stop (h.grace u) h.timers;
}

-- `startRoomGracePeriod`, with what `Run` does where the user is in no room.
abbrev pub room_grace_if : Bool → UserId → Action → Action
room_grace_if true u otherwise h = otherwise h
room_grace_if false u otherwise h = record h {
  room_grace = update h.room_grace u (some h.next_timer);
  room_timers = update (stop (h.room_grace u) h.room_timers) h.next_timer (some u);
  next_timer = suc h.next_timer;
}

unfoldable pub start_room_grace_period : UserId → Action → Action
start_room_grace_period u otherwise h =
    room_grace_if (is_empty (get_user_rooms u h.rooms)) u otherwise h

unfoldable pub cancel_room_grace_period : UserId → Action
cancel_room_grace_period u h = record h {
  room_grace = update h.room_grace u none;
  room_timers = stop (h.room_grace u) h.room_timers;
}

-- The time of a grace timer is up: `reconnectGraceTimeout` after its `select`.
unfoldable pub grace_over : Time → GraceTimer → Action
grace_over now t =
    clear_ice_buffer t.call_id
    ⨾ asking (Store.end now t.call_id reconnect_timeout) (λ e. skip)
        (λ _.
          publish (Event.call_ended t.call_id reconnect_timeout (pos 0))
          ⨾ send_to_user t.peer_id (call_ended t.call_id reconnect_timeout)
          ⨾ remove_from_all_rooms now t.user_id)

unfoldable pub fire : Time → ℕ → Option GraceTimer → Action
fire now n none h = h
fire now n (some t) h =
    grace_over now t
      (record h { grace = update h.grace t.user_id none; timers = update h.timers n none })

unfoldable pub grace_expired : Time → ℕ → Action
unfolding fire
grace_expired now n h = fire now n (h.timers n) h

unfoldable pub fire_room : Time → ℕ → Option UserId → Action
fire_room now n none h = h
fire_room now n (some u) h = remove_from_all_rooms now u (record h {
  room_grace = update h.room_grace u none;
  room_timers = update h.room_timers n none;
})

unfoldable pub room_grace_expired : Time → ℕ → Action
unfolding fire_room
room_grace_expired now n h = fire_room now n (h.room_timers n) h

unfoldable pub handle_reconnect : Client → Option CallId → Action
handle_reconnect client none = send_error client Code.invalid_message 0
handle_reconnect client (some c) =
    if is_zero c
    then send_error client Code.invalid_message 0
    else asking (Store.get c) (λ e. send_error client Code.not_found c)
        (λ s.
          if not (is_party client.user_id s)
          then send_error client Code.unauthorized c
          else if not (is s.state reconnecting)
          then send_error client Code.invalid_state c
          else cancel_grace_period client.user_id
            ⨾ asking (Store.transition_state c active (λ t. t))
                (λ e. send_error client Code.internal_error c)
                (λ _.
                  send client (session_resumed c active (peer_of client.user_id s))
                  ⨾ send_to_user (peer_of client.user_id s) (peer_reconnected c client.user_id)
                  ⨾ flush_ice_buffer c client))

abbrev pub sync_of : Client → Option CallId → Action
sync_of client none = skip
sync_of client (some c) =
    asking (Store.get c) (λ e. skip)
      (λ s. send client (
        state_sync c (peer_of client.user_id s) s.call_type s.state
          (if s.caller_id == client.user_id then calling else called)))

unfoldable pub send_state_sync : Client → Action
send_state_sync client =
    asking (Store.get_user_active_call client.user_id) (λ e. skip) (sync_of client)

abbrev pub not_device : Client → Client → Bool
not_device c d = not (d.device_id == c.device_id)

-- The changes of `h.clients` in `Run`. An older connection of the same device is closed.
unfoldable pub attach : Client → Action
attach c h = record h {
  clients = update h.clients c.user_id (filter (not_device c) (h.clients c.user_id) ++ c ∷ []);
}

-- `existing == client` for the entry of the client's device.
abbrev pub is_client : Client → Client → Bool
is_client c d = d.device_id == c.device_id && d.conn == c.conn

unfoldable pub detach : Client → Action
detach c h = record h {
  clients = update h.clients c.user_id (filter (λ d. not (is_client c d)) (h.clients c.user_id));
}

-- A client arrives: the `register` case of `Run`.
unfoldable pub register : Client → Action
register c = attach c ⨾ cancel_room_grace_period c.user_id ⨾ send_state_sync c

-- The user has no device left: a grace period for the call, or one for the rooms, or none.
unfoldable pub last_device_gone : Time → UserId → Action
last_device_gone now u =
    start_grace_period u (start_room_grace_period u (remove_from_all_rooms now u))

unfoldable pub if_offline : Time → UserId → Action
if_offline now u h = (if is_user_online u h then skip else last_device_gone now u) h

-- A connection ends: the `unregister` case of `Run`.
unfoldable pub unregister : Time → Client → Action
unregister now c = detach c ⨾ if_offline now c.user_id
