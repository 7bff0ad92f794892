-- ===== src/Signaling/Hub/Hosts.antt =====
-- The hub's own note of a room's host after the host has left: internal/signaling/hub.go.
use lalo_lao_alo.Base.{
  Bool, true, false, List, [], ◌∷◌, some, ◌==◌, if◌then◌else◌, contains, is_empty, ◌≡◌, ◌≢◌, refl,
  arith,
}
use lalo_lao_alo.Common.{UserId, CallId, Time, Result, ok, err}
use lalo_lao_alo.Orchestrator.Services.{Services, O}
use lalo_lao_alo.Signaling.Message.{Message, Code, participant_left}
use lalo_lao_alo.Orchestrator.Rooms as Groups
use lalo_lao_alo.Signaling.Hub.{
  Hub, Client, Action, skip, requesting, requested, send_error, send_to_user,
}
use lalo_lao_alo.Signaling.Hub.Membership.{
  remove_member, members_of, is_in_room, is_room_host, get_room_members, remove_from_room,
  send_each, broadcast_to_room,
}
use lalo_lao_alo.Signaling.Hub.Rooms.{handle_room_leave, handle_room_end_all, pass_host}

-- The same rooms and hosts.
record SameRooms (h k : Hub) : Type 0 where
  pub rooms : k.rooms ≡ h.rooms
  pub hosts : k.hosts ≡ h.hosts
  pub available : k.group_calls ≡ h.group_calls

send_each-SameRooms :
    (x : UserId) (m : Message) (us : List UserId) (h : Hub) → SameRooms h (send_each x m us h)
unfolding send_each send_to_user
send_each-SameRooms x m [] h = record { rooms = refl; hosts = refl; available = refl }
send_each-SameRooms x m (u ∷ us) h =
    let first : Hub = (if u == x then skip else send_to_user u m) h in
    let rest = send_each-SameRooms x m us first in
    record {
      rooms = ground (arith, rest.rooms);
      hosts = ground (arith, rest.hosts);
      available = ground (arith, rest.available);
    }

broadcast-SameRooms :
    (c : CallId) (x : UserId) (m : Message) (h : Hub) → SameRooms h (broadcast_to_room c x m h)
unfolding broadcast_to_room
broadcast-SameRooms c x m h = send_each-SameRooms x m (get_room_members c h) h

requesting-SameRooms :
    {A : Type 0} (m : O A) (good : A → Action) (h : Hub)
    → ((a : A) (k : Hub) → SameRooms k (good a k))
    → SameRooms h (requesting m (λ e. skip) good h)
unfolding requesting
requesting-SameRooms {A} m good h k = go (m h.services)
  where
    go : (x : Services × Result A) → SameRooms h (requested h x (λ e. skip) good)
    go (w, ok a) =
        let done = k a (record h { services = w }) in
        record { rooms = done.rooms; hosts = done.hosts; available = done.available }
    go (w, err e) = record { rooms = refl; hosts = refl; available = refl }

pass_host-SameRooms :
    (b : Bool) (c : CallId) (us : List UserId) (h : Hub) → SameRooms h (pass_host b c us h)
pass_host-SameRooms true c (u ∷ us) h =
    requesting-SameRooms _ _ h (λ a k. broadcast-SameRooms c 0 _ k)
pass_host-SameRooms true c [] h = record { rooms = refl; hosts = refl; available = refl }
pass_host-SameRooms false c us h = record { rooms = refl; hosts = refl; available = refl }

module _ (now : Time) (client : Client) (c : CallId) (h : Hub) (available : h.group_calls ≡ true)
    (named : c ≢ 0) (inside : is_in_room c client.user_id h ≡ true)
    (remains : is_empty (members_of c (remove_member c client.user_id h.rooms)) ≡ false) where
  without_client : Hub
  without_client =
      remove_from_room c client.user_id
        (requesting (Groups.leave_group_session now c client.user_id) (λ e. skip) (λ _. skip) h)

  passed : Hub
  passed =
      pass_host (is_room_host c client.user_id h) c (get_room_members c without_client)
        without_client

  without_client_rooms :
      (without_client.rooms ≡ remove_member c client.user_id h.rooms)
      × (without_client.hosts ≡ h.hosts)
      × (without_client.group_calls ≡ h.group_calls)
  unfolding without_client remove_from_room
  without_client_rooms =
      let left =
        requesting-SameRooms (Groups.leave_group_session now c client.user_id) (λ _. skip) h
          (λ a k. record { rooms = refl; hosts = refl; available = refl }) in
      (rw left.rooms refl, left.hosts, left.available)

  somebody : is_empty (get_room_members c without_client) ≡ false
  unfolding get_room_members
  somebody = rw without_client_rooms.0 remains

  leave_result :
      handle_room_leave now client (some c) h
      ≡ broadcast_to_room c 0 (participant_left c client.user_id) passed
  unfolding handle_room_leave passed without_client
  leave_result =
      let some_id : (c == 0) ≡ false = ground arith in simp (available, some_id, inside, somebody)

  leave_keeps :
      let h' = handle_room_leave now client (some c) h in
      (h'.rooms ≡ remove_member c client.user_id h.rooms)
      × (h'.hosts ≡ h.hosts)
      × (h'.group_calls ≡ true)
  unfolding passed
  leave_keeps =
      let told = broadcast-SameRooms c 0 (participant_left c client.user_id) passed in
      let handed =
        pass_host-SameRooms (is_room_host c client.user_id h) c (get_room_members c without_client)
          without_client in
      let left = without_client_rooms in
      rw leave_result (
        ground (
          arith, told.rooms, told.hosts, told.available, handed.rooms, handed.hosts,
          handed.available, left, available,
        ))

  -- The orchestrator is configured, and a host of a room with a non-empty identifier, of which
  -- others are members in the hub, leaves it with a `room_leave`. When any client of a user who is
  -- still a member, and who is not that host, then asks to end the room for all, the hub changes
  -- nothing and sends the error `unauthorized` to that client, whether or not the transfer of the
  -- host to a remaining member has succeeded.
  pub nobody_ends_after_host_left :
      (later : Time) (other : Client)
      → h.hosts c ≡ client.user_id
      → other.user_id ≢ client.user_id
      → contains (members_of c (remove_member c client.user_id h.rooms)) other.user_id ≡ true
      → let h' = handle_room_leave now client (some c) h in
        handle_room_end_all later other (some c) h' ≡ send_error other Code.unauthorized c h'
  unfolding handle_room_end_all is_in_room is_room_host
  nobody_ends_after_host_left later other hosts differs member =
      let kept = leave_keeps in
      let some_id : (c == 0) ≡ false = ground arith in
      let not_host : (client.user_id == other.user_id) ≡ false = ground arith in
      rw (kept.2, some_id, kept.0, member, kept.1, hosts, not_host) refl
