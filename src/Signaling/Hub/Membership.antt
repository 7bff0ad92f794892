-- ===== src/Signaling/Hub/Membership.antt =====
-- The hub's own list of rooms and hosts, and messages to a whole room: internal/signaling/hub.go.
use lalo_lao_alo.Base.{
  Bool, not, List, [], ◌∷◌, ◌++◌, ◌==◌, if◌then◌else◌, contains, filter, is_empty, update,
}
use lalo_lao_alo.Common.{UserId, CallId, Time}
use lalo_lao_alo.Orchestrator.Rooms
use lalo_lao_alo.Signaling.Message.{Message, participant_left}
use lalo_lao_alo.Signaling.Hub.{Hub, Action, skip, ◌⨾◌, requesting, send_to_user}

abbrev pub RoomList : Type 0
RoomList = List (CallId × List UserId)

-- `h.rooms[roomID]`, empty where there is no such room.
unfoldable pub members_of : CallId → RoomList → List UserId
members_of c [] = []
members_of c ((d, us) ∷ rooms) = if d == c then us else members_of c rooms

abbrev with_member : UserId → List UserId → List UserId
with_member u us = if contains us u then us else us ++ u ∷ []

unfoldable pub add_member : CallId → UserId → RoomList → RoomList
add_member c u [] = (c, u ∷ []) ∷ []
add_member c u ((d, us) ∷ rooms) =
    if d == c then (d, with_member u us) ∷ rooms else (d, us) ∷ add_member c u rooms

abbrev pub without : UserId → List UserId → List UserId
without u = filter (λ v. not (v == u))

unfoldable pub remove_member : CallId → UserId → RoomList → RoomList
remove_member c u [] = []
remove_member c u ((d, us) ∷ rooms) =
    if d == c then (d, without u us) ∷ rooms else (d, us) ∷ remove_member c u rooms

unfoldable pub delete_room : CallId → RoomList → RoomList
delete_room c [] = []
delete_room c ((d, us) ∷ rooms) = if d == c then rooms else (d, us) ∷ delete_room c rooms

unfoldable pub add_to_room : CallId → UserId → Action
unfolding add_member
add_to_room c u h = record h { rooms = add_member c u h.rooms }

unfoldable pub set_room_host : CallId → UserId → Action
set_room_host c u h = record h { hosts = update h.hosts c u }

unfoldable pub clear_room_host : CallId → Action
clear_room_host c h = record h { hosts = update h.hosts c 0 }

unfoldable pub is_room_host : CallId → UserId → Hub → Bool
is_room_host c u h = h.hosts c == u

unfoldable pub remove_from_room : CallId → UserId → Action
unfolding remove_member
remove_from_room c u h = record h { rooms = remove_member c u h.rooms }

unfoldable pub drop_room : CallId → Action
unfolding delete_room clear_room_host
drop_room c h = clear_room_host c (record h { rooms = delete_room c h.rooms })

unfoldable pub is_in_room : CallId → UserId → Hub → Bool
unfolding members_of
is_in_room c u h = contains (members_of c h.rooms) u

unfoldable pub get_room_members : CallId → Hub → List UserId
unfolding members_of
get_room_members c h = members_of c h.rooms

unfoldable pub send_each : UserId → Message → List UserId → Action
send_each excluded m [] = skip
send_each excluded m (u ∷ us) =
    (if u == excluded then skip else send_to_user u m) ⨾ send_each excluded m us

-- A message to each user of a list.
unfoldable pub tell_each : Message → List UserId → Action
tell_each m [] = skip
tell_each m (u ∷ us) = send_to_user u m ⨾ tell_each m us

-- `broadcastToRoom`; nobody is excluded where the identifier is 0.
unfoldable pub broadcast_to_room : CallId → UserId → Message → Action
unfolding send_each get_room_members
broadcast_to_room c excluded m h = send_each excluded m (get_room_members c h) h

unfoldable pub get_user_rooms : UserId → RoomList → List CallId
get_user_rooms u [] = []
get_user_rooms u ((c, us) ∷ rooms) =
    let rest = get_user_rooms u rooms in if contains us u then c ∷ rest else rest

-- The first loop of `removeFromAllRooms`: a room that it empties goes away.
unfoldable pub left_rooms : UserId → RoomList → RoomList
left_rooms u [] = []
left_rooms u ((c, us) ∷ rooms) =
    let rest = left_rooms u rooms in
    if contains us u
    then (if is_empty (without u us) then rest else (c, without u us) ∷ rest)
    else (c, us) ∷ rest

unfoldable pub emptied_rooms : UserId → RoomList → List CallId
emptied_rooms u [] = []
emptied_rooms u ((c, us) ∷ rooms) =
    let rest = emptied_rooms u rooms in
    if contains us u then (if is_empty (without u us) then c ∷ rest else rest) else rest

unfoldable pub clear_hosts : List CallId → Action
clear_hosts [] = skip
clear_hosts (c ∷ cs) = clear_room_host c ⨾ clear_hosts cs

-- Its second loop.
unfoldable pub announce_left : Time → UserId → List CallId → Action
announce_left now u [] = skip
announce_left now u (c ∷ cs) =
    (λ h.
      (if h.group_calls
          then requesting (Rooms.leave_group_session now c u) (λ e. skip) (λ _. skip)
          else skip)
        h)
    ⨾ broadcast_to_room c 0 (participant_left c u)
    ⨾ announce_left now u cs

unfoldable pub remove_from_all_rooms : Time → UserId → Action
unfolding clear_hosts announce_left
remove_from_all_rooms now u h =
    (clear_hosts (emptied_rooms u h.rooms) ⨾ announce_left now u (get_user_rooms u h.rooms))
      (record h { rooms = left_rooms u h.rooms })
