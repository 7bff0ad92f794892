-- ===== src/Examples/Rooms.antt =====
-- The theorems on the orchestrator, its rooms and the choice of the media path at concrete inputs.
use lalo_lao_alo.Base.{none}
use lalo_lao_alo.Base.{◌≤◌, true, false, List, [], ◌∷◌, some, ◌≡◌, ◌≢◌, refl, arith}
use lalo_lao_alo.Common.{normal, wrapped, already_in_call, user_busy, ok, err}
use lalo_lao_alo.Redis.{Redis, room, as_room}
use lalo_lao_alo.Session.{
  Session, Participant, caller, participant, active_participants, find_participant,
  modify_participant,
}
use lalo_lao_alo.Session.Cdr.{generate_cdr}
use lalo_lao_alo.Session.History.{CallTables, history_row, participant_row}
use lalo_lao_alo.Session.History.Rows as Rows
use lalo_lao_alo.Orchestrator.Store
use lalo_lao_alo.Orchestrator.Store.{ended_session, put_room, left_session}
use lalo_lao_alo.Orchestrator.Store.Ends as Ends
use lalo_lao_alo.Orchestrator.Store.Laws.{Capped, present}
use lalo_lao_alo.Orchestrator.Store.Runs as Runs
use lalo_lao_alo.Orchestrator.Store.Runs.{
  Write, creates, joins, leaves, ends, promotes, perform_all,
}
use lalo_lao_alo.Orchestrator.Closing as Closing
use lalo_lao_alo.Orchestrator.Closing.{Cleared}
use lalo_lao_alo.Orchestrator.Rooms.{join_group_session}
use lalo_lao_alo.Orchestrator.Rooms.Laws as RoomLaws
use lalo_lao_alo.Orchestrator.Rooms.Laws.{AllAbsent}
use lalo_lao_alo.Signaling.Message.{Code}
use lalo_lao_alo.Orchestrator.Services.{room_limit}
use lalo_lao_alo.Signaling.Hub.Membership.{is_in_room}
use lalo_lao_alo.Signaling.Hub.Hosts as HubHosts
use lalo_lao_alo.Signaling.Hub.{send_error}
use lalo_lao_alo.Signaling.Hub.Membership.{members_of, remove_member}
use lalo_lao_alo.Signaling.Hub.Rooms.{handle_room_leave, handle_room_end_all}
use lalo_lao_alo.Base.{contains, is_empty, false}
use lalo_lao_alo.Examples.{empty_redis, services_on, hub_on, phone, member, room_of, redis_of}

-- User 1 hosts the room 70, and user 2 is in it.
abbrev both : List Participant
both = member 1 caller 0 ∷ member 2 participant 0 ∷ []

-- Either has left it.
abbrev without_second : List Participant
without_second = member 1 caller 0 ∷ member 2 participant 30 ∷ []

abbrev without_host : List Participant
without_host = member 1 caller 30 ∷ member 2 participant 0 ∷ []

abbrev writes : List Write
writes =
    creates (room_of (member 1 caller 0 ∷ []))
    ∷ joins 70 (member 2 participant 0)
    ∷ joins 70 (member 3 participant 0)
    ∷ leaves 30 70 2
    ∷ promotes 70 1 participant
    ∷ ends 40 70 normal
    ∷ []

one_present : present (member 1 caller 0 ∷ []) ≤ 2
unfolding active_participants
one_present = omega arith

perform_all-Capped_example : Capped 2 (perform_all 2 writes empty_redis)
perform_all-Capped_example =
    Runs.perform_all-Capped 2 writes empty_redis
      (one_present, (refl, (refl, (omega arith, (tt, (omega arith, tt)))))) (λ c s e. ground arith)

abbrev room_end : Session
room_end = ended_session 40 normal (room_of both)

ended_room : (Store.end_session 40 70 normal (redis_of both)).1 ≡ ok room_end
unfolding Store.end_session
ended_room = refl

end_session-Cleared_example :
    Cleared 40 (room_of both) room_end (Store.end_session 40 70 normal (redis_of both)).0
unfolding as_room
end_session-Cleared_example =
    Closing.end_session-Cleared 40 70 normal (redis_of both) (room (room_of both)) room_end
      (omega arith) refl ended_room

rejoin_refused_example :
    (join_group_session 50 70 2 (services_on (redis_of without_second))).1
    ≡ err (wrapped already_in_call)
unfolding find_participant
rejoin_refused_example =
    RoomLaws.rejoin_refused 50 70 2 (services_on (redis_of without_second)) (room_of without_second)
      (λ n. refl) refl refl (member 2 participant 30) refl (omega arith)

outside : is_in_room 70 3 (hub_on (redis_of both)) ≡ false
unfolding is_in_room
outside = refl

inside : is_in_room 70 2 (hub_on (redis_of both)) ≡ true
unfolding is_in_room
inside = refl

full : room_limit (services_on (redis_of both)) ≤ 2
unfolding room_limit
full = omega arith

second_remains :
    is_empty (members_of 70 (remove_member 70 1 (hub_on (redis_of both)).rooms)) ≡ false
unfolding members_of remove_member
second_remains = refl

second_member :
    contains (members_of 70 (remove_member 70 1 (hub_on (redis_of both)).rooms)) 2 ≡ true
unfolding members_of remove_member
second_member = refl

host_inside : is_in_room 70 1 (hub_on (redis_of both)) ≡ true
unfolding is_in_room
host_inside = refl

nobody_ends_after_host_left_example :
    let h' = handle_room_leave 50 (phone 1) (some 70) (hub_on (redis_of both)) in
    handle_room_end_all 60 (phone 2) (some 70) h' ≡ send_error (phone 2) Code.unauthorized 70 h'
nobody_ends_after_host_left_example =
    HubHosts.nobody_ends_after_host_left 50 (phone 1) 70 (hub_on (redis_of both)) refl (omega arith)
      host_inside second_remains 60 (phone 2) refl (omega arith) second_member

-- The rows of a call 71 and, for the call 70, one of the user 1 who had not left.
abbrev tables : CallTables
tables = record {
  call_history = history_row (record (generate_cdr room_end) { call_id = 71 }) ∷ [];
  call_participants = participant_row 70 (member 1 caller 0) ∷ [];
}

-- User 2 is in the call 71 of user 3, and user 1 is alone in the room 70.
abbrev first_call : Session
first_call = record (room_of (member 3 caller 0 ∷ member 2 participant 0 ∷ [])) { call_id = 71 }

abbrev two_rooms : Redis
two_rooms = put_room (room_of (member 1 caller 0 ∷ [])) (put_room first_call empty_redis)

abbrev left_first : Redis
left_first = (Store.remove_participant 30 71 2 two_rooms).0

abbrev in_second : Redis
in_second = (Store.add_participant 70 (member 2 participant 0) 8 left_first).0

abbrev first_over : Redis
first_over = (Store.end_session 40 71 normal in_second).0

leaves_first :
    Store.remove_participant 30 71 2 two_rooms ≡ (left_first, ok (left_session 30 2 first_call))
unfolding Store.remove_participant find_participant modify_participant
leaves_first = refl

joins_second : Store.add_participant 70 (member 2 participant 0) 8 left_first ≡ (in_second, ok tt)
unfolding Store.add_participant Store.remove_participant find_participant active_participants
    modify_participant
joins_second = refl

ends_first :
    Store.end_session 40 71 normal in_second
    ≡ (first_over, ok (ended_session 40 normal (left_session 30 2 first_call)))
unfolding Store.end_session Store.add_participant Store.remove_participant find_participant
    active_participants modify_participant
ends_first = refl

listed_first : find_participant first_call.participants 2 ≡ some (member 2 participant 0)
unfolding find_participant
listed_first = refl

leaver_loses_mark_example :
    (in_second.active_call 2 ≡ some 70)
    × (first_over.active_call 2 ≡ none)
    × ((t : Session) × (first_over.sessions 70 ≡ some (room t))
        × (find_participant t.participants 2 ≡ some (member 2 participant 0)))
    × ((Store.create (record first_call { call_id = 72; initiator_id = 2 }) first_over).1
        ≢ err user_busy)
unfolding as_room
leaver_loses_mark_example =
    Ends.leaver_loses_mark 30 40 71 70 normal (member 2 participant 0) (member 2 participant 0) 8
      two_rooms left_first in_second first_over (room first_call)
      (room (room_of (member 1 caller 0 ∷ []))) (left_session 30 2 first_call)
      (ended_session 40 normal (left_session 30 2 first_call))
      (record first_call { call_id = 72; initiator_id = 2 }) (omega arith) refl listed_first refl
      leaves_first joins_second ends_first refl
