-- ===== src/Signaling/Hub/KeepsReconnect.antt =====
-- Connections, grace periods and ICE candidates (internal/signaling/hub.go) keep the marks.
use lalo_lao_alo.Base.{ℕ, Bool, true, false, List, [], ◌∷◌, Option, none, some, is_empty}
use lalo_lao_alo.Common.{UserId, CallId, Time}
use lalo_lao_alo.Signaling.Store.Marks.{Marked}
use lalo_lao_alo.Signaling.Message.{IceCandidate}
use lalo_lao_alo.Signaling.Hub.{Hub, Client, GraceTimer, Action, is_user_online}
use lalo_lao_alo.Signaling.Hub.Keeps.{Keeps, keeps, kept, keeping, Keeps-skip, Keeps-⨾, Keeps-if}
use lalo_lao_alo.Signaling.Hub.Invariant.{KeepsStore-activate, KeepsStore-suspend}
use lalo_lao_alo.Signaling.Hub.KeepsRooms.{
  Keeps-remove_from_all_rooms, Keeps-cancel_room_grace_period,
}
use lalo_lao_alo.Signaling.Hub.Ice
use lalo_lao_alo.Signaling.Hub.Membership.{get_user_rooms}
use lalo_lao_alo.Signaling.Hub.Reconnect

Keeps-start_timer : (t : GraceTimer) → Keeps (Reconnect.start_timer t)
unfolding Reconnect.start_timer
Keeps-start_timer t = keeps (λ h m. m)

Keeps-grace_of :
    (u : UserId) (otherwise : Action) (o : Option CallId)
    → Keeps otherwise
    → Keeps (Reconnect.grace_of u otherwise o)
Keeps-grace_of u otherwise none k = k
Keeps-grace_of u otherwise (some c) k =
    search (keeping, KeepsStore-suspend, Keeps-start_timer) depth 16

Keeps-start_grace_period :
    (u : UserId) (otherwise : Action)
    → Keeps otherwise
    → Keeps (Reconnect.start_grace_period u otherwise)
unfolding Reconnect.start_grace_period
Keeps-start_grace_period u otherwise k = search (keeping, Keeps-grace_of)

Keeps-cancel_grace_period : (u : UserId) → Keeps (Reconnect.cancel_grace_period u)
unfolding Reconnect.cancel_grace_period
Keeps-cancel_grace_period u = keeps (λ h m. m)

Keeps-start_room_grace_period :
    (u : UserId) (otherwise : Action)
    → Keeps otherwise
    → Keeps (Reconnect.start_room_grace_period u otherwise)
unfolding Reconnect.start_room_grace_period
Keeps-start_room_grace_period u otherwise k =
    keeps (λ h m. go h (is_empty (get_user_rooms u h.rooms)) m)
  where
    go : (h : Hub) (b : Bool) → Marked h.rdb → Marked (Reconnect.room_grace_if b u otherwise h).rdb
    go h true m = kept k h m
    go h false m = m

Keeps-flush : (c : CallId) (client : Client) → Keeps (Ice.flush_ice_buffer c client)
unfolding Ice.flush_ice_buffer
Keeps-flush c client = keeps (λ h m. m)

Keeps-clear_ice_buffer : (c : CallId) → Keeps (Ice.clear_ice_buffer c)
unfolding Ice.clear_ice_buffer
Keeps-clear_ice_buffer c = keeps (λ h m. m)

Keeps-buffer : (c : CallId) (i : IceCandidate) → Keeps (Ice.buffer_ice_candidate c i)
unfolding Ice.buffer_ice_candidate
Keeps-buffer c i = keeps (λ h m. m)

Keeps-send_first : (cs : List Client) (i : IceCandidate) → Keeps (Ice.send_first cs i)
Keeps-send_first [] i = search keeping
Keeps-send_first (c ∷ cs) i = search keeping

Keeps-forward : (u : UserId) (i : IceCandidate) → Keeps (Ice.forward_candidate u i)
unfolding Ice.forward_candidate
Keeps-forward u i = keeps (λ h. kept (Keeps-send_first (h.clients u) i) h)

pub Keeps-handle_ice_candidate :
    (client : Client) (m : Option IceCandidate) → Keeps (Ice.handle_ice_candidate client m)
unfolding Ice.handle_ice_candidate
Keeps-handle_ice_candidate client none = search keeping
Keeps-handle_ice_candidate client (some i) = search (keeping, Keeps-buffer, Keeps-forward) depth 12

pub Keeps-handle_reconnect :
    (client : Client) (m : Option CallId) → Keeps (Reconnect.handle_reconnect client m)
unfolding Reconnect.handle_reconnect
Keeps-handle_reconnect client none = search keeping
Keeps-handle_reconnect client (some c) =
    search (keeping, KeepsStore-activate, Keeps-flush, Keeps-cancel_grace_period) depth 16

Keeps-grace_over : (now : Time) (t : GraceTimer) → Keeps (Reconnect.grace_over now t)
unfolding Reconnect.grace_over
Keeps-grace_over now t =
    search (keeping, Keeps-clear_ice_buffer, Keeps-remove_from_all_rooms) depth 16

pub Keeps-grace_expired : (now : Time) (n : ℕ) → Keeps (Reconnect.grace_expired now n)
unfolding Reconnect.grace_expired
Keeps-grace_expired now n = keeps (λ h. go (h.timers n) h)
  where
    go : (o : Option GraceTimer) (h : Hub) → Marked h.rdb → Marked (Reconnect.fire now n o h).rdb
    go none h m = m
    go (some t) h m = kept (Keeps-grace_over now t) _ m

pub Keeps-room_grace_expired : (now : Time) (n : ℕ) → Keeps (Reconnect.room_grace_expired now n)
unfolding Reconnect.room_grace_expired
Keeps-room_grace_expired now n = keeps (λ h. go (h.room_timers n) h)
  where
    go : (o : Option UserId) (h : Hub) → Marked h.rdb → Marked (Reconnect.fire_room now n o h).rdb
    go none h m = m
    go (some u) h m = kept (Keeps-remove_from_all_rooms now u) _ m

Keeps-sync_of : (client : Client) (o : Option CallId) → Keeps (Reconnect.sync_of client o)
Keeps-sync_of client none = search keeping
Keeps-sync_of client (some c) = search keeping depth 12

Keeps-send_state_sync : (client : Client) → Keeps (Reconnect.send_state_sync client)
unfolding Reconnect.send_state_sync
Keeps-send_state_sync client = search (keeping, Keeps-sync_of)

pub Keeps-register : (c : Client) → Keeps (Reconnect.register c)
unfolding Reconnect.register Reconnect.attach
Keeps-register c =
    Keeps-⨾ (keeps (λ h m. m))
      (Keeps-⨾ (Keeps-cancel_room_grace_period c.user_id) (Keeps-send_state_sync c))

Keeps-last_device_gone : (now : Time) (u : UserId) → Keeps (Reconnect.last_device_gone now u)
unfolding Reconnect.last_device_gone
Keeps-last_device_gone now u =
    Keeps-start_grace_period u _
      (Keeps-start_room_grace_period u _ (Keeps-remove_from_all_rooms now u))

Keeps-if_offline : (now : Time) (u : UserId) → Keeps (Reconnect.if_offline now u)
unfolding Reconnect.if_offline
Keeps-if_offline now u =
    keeps (λ h. kept (Keeps-if (is_user_online u h) Keeps-skip (Keeps-last_device_gone now u)) h)

pub Keeps-unregister : (now : Time) (c : Client) → Keeps (Reconnect.unregister now c)
unfolding Reconnect.unregister Reconnect.detach
Keeps-unregister now c = Keeps-⨾ (keeps (λ h m. m)) (Keeps-if_offline now c.user_id)
