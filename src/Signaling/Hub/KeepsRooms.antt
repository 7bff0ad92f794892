-- ===== src/Signaling/Hub/KeepsRooms.antt =====
-- The hub's room list and its handlers of group calls (internal/signaling/hub.go) keep the marks.
use lalo_lao_alo.Base.{ℕ, Bool, true, false, List, [], ◌∷◌, Option, none, some, if◌then◌else◌}
use lalo_lao_alo.Common.{UserId, CallId, Time, Error, Result, ok, err}
use lalo_lao_alo.Orchestrator.Services.{Services, O}
use lalo_lao_alo.Orchestrator.Calls.{Resolver}
use lalo_lao_alo.Orchestrator.Rooms as Groups
use lalo_lao_alo.Signaling.Store.Marks.{Marked}
use lalo_lao_alo.Signaling.Message.{
  Message, RoomCreate, RoomInvite, MediaChange, participant_left, participant_joined, hosting,
}
use lalo_lao_alo.Signaling.Hub.{Hub, Client, Action, skip, requested, requesting}
use lalo_lao_alo.Signaling.Hub.Keeps.{
  Keeps, keeps, kept, keeping, Keeps-skip, Keeps-⨾, Keeps-if, KeepsStore-check_rate_limit,
}
use lalo_lao_alo.Signaling.Hub.KeepsOrchestrator.{
  KeepsO, keeps_o, KeepsO-create_group_session, KeepsO-join_group_session, KeepsO-close_room,
  KeepsO-leave_group_session, KeepsO-invite_to_room, KeepsO-transfer_host,
  KeepsO-update_media_state,
}
use lalo_lao_alo.Signaling.Hub.Membership
use lalo_lao_alo.Signaling.Hub.Rooms
use lalo_lao_alo.Signaling.Hub.Reconnect

Keeps-requesting :
    {A : Type 0} {m : O A} {bad : Error → Action} {good : A → Action}
    → KeepsO m
    → ((e : Error) → Keeps (bad e))
    → ((a : A) → Keeps (good a))
    → Keeps (requesting m bad good)
unfolding requesting
Keeps-requesting {A} {m} {bad} {good} (keeps_o k) kb kg =
    keeps (λ h i. go h (m h.services) (k h.services i))
  where
    go : (h : Hub) (x : Services × Result A) → Marked x.0.rdb → Marked (requested h x bad good).rdb
    go h (w, ok a) i = kept (kg a) (record h { services = w }) i
    go h (w, err e) i = kept (kb e) (record h { services = w }) i

Keeps-reading :
    {A : Type 0} (read : Hub → A) {f : A → Action}
    → ((a : A) → Keeps (f a))
    → Keeps (Rooms.reading read f)
Keeps-reading read k = keeps (λ h. kept (k (read h)) h)

Keeps-add_to_room : (c : CallId) (u : UserId) → Keeps (Membership.add_to_room c u)
unfolding Membership.add_to_room
Keeps-add_to_room c u = keeps (λ h m. m)

Keeps-set_room_host : (c : CallId) (u : UserId) → Keeps (Membership.set_room_host c u)
unfolding Membership.set_room_host
Keeps-set_room_host c u = keeps (λ h m. m)

Keeps-clear_room_host : (c : CallId) → Keeps (Membership.clear_room_host c)
unfolding Membership.clear_room_host
Keeps-clear_room_host c = keeps (λ h m. m)

Keeps-remove_from_room : (c : CallId) (u : UserId) → Keeps (Membership.remove_from_room c u)
unfolding Membership.remove_from_room
Keeps-remove_from_room c u = keeps (λ h m. m)

Keeps-drop_room : (c : CallId) → Keeps (Membership.drop_room c)
unfolding Membership.drop_room
Keeps-drop_room c = keeps (λ h m. m)

Keeps-send_each :
    (excluded : UserId) (m : Message) (us : List UserId)
    → Keeps (Membership.send_each excluded m us)
unfolding Membership.send_each
Keeps-send_each excluded m [] = search keeping
Keeps-send_each excluded m (u ∷ us) =
    let rest = Keeps-send_each excluded m us in search (keeping, rest)

Keeps-tell_each : (m : Message) (us : List UserId) → Keeps (Membership.tell_each m us)
unfolding Membership.tell_each
Keeps-tell_each m [] = search keeping
Keeps-tell_each m (u ∷ us) = let rest = Keeps-tell_each m us in search (keeping, rest)

Keeps-broadcast_to_room :
    (c : CallId) (excluded : UserId) (m : Message)
    → Keeps (Membership.broadcast_to_room c excluded m)
unfolding Membership.broadcast_to_room
Keeps-broadcast_to_room c excluded m =
    keeps (λ h. kept (Keeps-send_each excluded m (Membership.get_room_members c h)) h)

Keeps-clear_hosts : (cs : List CallId) → Keeps (Membership.clear_hosts cs)
unfolding Membership.clear_hosts
Keeps-clear_hosts [] = search keeping
Keeps-clear_hosts (c ∷ cs) =
    let rest = Keeps-clear_hosts cs in search (keeping, Keeps-clear_room_host, rest)

Keeps-auto_leave :
    (now : Time) (u : UserId) (c : CallId)
    → Keeps (requesting (Groups.leave_group_session now c u) (λ e. skip) (λ _. skip))
Keeps-auto_leave now u c =
    Keeps-requesting (KeepsO-leave_group_session now c u) (λ e. Keeps-skip) (λ _. Keeps-skip)

Keeps-where_available : {f : Action} → Keeps f → Keeps (λ h. (if h.group_calls then f else skip) h)
Keeps-where_available {f} k = keeps (λ h. kept (Keeps-if h.group_calls k Keeps-skip) h)

Keeps-announce_left :
    (now : Time) (u : UserId) (cs : List CallId) → Keeps (Membership.announce_left now u cs)
unfolding Membership.announce_left
Keeps-announce_left now u [] = search keeping
Keeps-announce_left now u (c ∷ cs) =
    Keeps-⨾ (Keeps-where_available (Keeps-auto_leave now u c))
      (Keeps-⨾ (Keeps-broadcast_to_room c 0 (participant_left c u)) (Keeps-announce_left now u cs))

pub Keeps-remove_from_all_rooms :
    (now : Time) (u : UserId) → Keeps (Membership.remove_from_all_rooms now u)
unfolding Membership.remove_from_all_rooms
Keeps-remove_from_all_rooms now u = keeps (λ h m.
    kept (Keeps-announce_left now u (Membership.get_user_rooms u h.rooms)) _
      (kept (Keeps-clear_hosts (Membership.emptied_rooms u h.rooms)) _ m))

pub Keeps-cancel_room_grace_period : (u : UserId) → Keeps (Reconnect.cancel_room_grace_period u)
unfolding Reconnect.cancel_room_grace_period
Keeps-cancel_room_grace_period u = keeps (λ h m. m)

Keeps-pass_host : (b : Bool) (c : CallId) (us : List UserId) → Keeps (Rooms.pass_host b c us)
Keeps-pass_host true c (u ∷ us) =
    Keeps-requesting (KeepsO-transfer_host c u) (λ e. Keeps-skip)
      (λ _. Keeps-broadcast_to_room c 0 (participant_joined c u hosting))
Keeps-pass_host true c [] = Keeps-skip
Keeps-pass_host false c us = Keeps-skip

ruleset keeping_rooms = (
  keeping, Keeps-requesting, Keeps-reading, Keeps-add_to_room, Keeps-set_room_host,
  Keeps-remove_from_room, Keeps-drop_room, Keeps-tell_each, Keeps-broadcast_to_room,
  Keeps-cancel_room_grace_period, Keeps-pass_host, KeepsStore-check_rate_limit,
  KeepsO-create_group_session, KeepsO-join_group_session, KeepsO-close_room,
  KeepsO-leave_group_session, KeepsO-invite_to_room, KeepsO-update_media_state,
)

pub Keeps-handle_room_create :
    (resolve : Resolver) (now : Time) (fresh : CallId) (key : ℕ) (client : Client)
    (m : Option RoomCreate)
    → Keeps (Rooms.handle_room_create resolve now fresh key client m)
unfolding Rooms.handle_room_create
Keeps-handle_room_create resolve now fresh key client none = search keeping_rooms depth 12
Keeps-handle_room_create resolve now fresh key client (some msg) = search keeping_rooms depth 24

pub Keeps-handle_room_invite :
    (resolve : Resolver) (client : Client) (m : Option RoomInvite)
    → Keeps (Rooms.handle_room_invite resolve client m)
unfolding Rooms.handle_room_invite
Keeps-handle_room_invite resolve client none = search keeping_rooms depth 12
Keeps-handle_room_invite resolve client (some msg) = search keeping_rooms depth 24

pub Keeps-handle_room_join :
    (now : Time) (client : Client) (m : Option CallId) → Keeps (Rooms.handle_room_join now client m)
unfolding Rooms.handle_room_join
Keeps-handle_room_join now client none = search keeping_rooms depth 12
Keeps-handle_room_join now client (some c) = search keeping_rooms depth 24

pub Keeps-handle_room_leave :
    (now : Time) (client : Client) (m : Option CallId)
    → Keeps (Rooms.handle_room_leave now client m)
unfolding Rooms.handle_room_leave
Keeps-handle_room_leave now client none = search keeping_rooms depth 12
Keeps-handle_room_leave now client (some c) = search keeping_rooms depth 24

pub Keeps-handle_room_end_all :
    (now : Time) (client : Client) (m : Option CallId)
    → Keeps (Rooms.handle_room_end_all now client m)
unfolding Rooms.handle_room_end_all
Keeps-handle_room_end_all now client none = search keeping_rooms depth 12
Keeps-handle_room_end_all now client (some c) = search keeping_rooms depth 24

pub Keeps-handle_media_change :
    (client : Client) (m : Option MediaChange) → Keeps (Rooms.handle_media_change client m)
unfolding Rooms.handle_media_change
Keeps-handle_media_change client none = search keeping_rooms depth 12
Keeps-handle_media_change client (some msg) = search keeping_rooms depth 24
