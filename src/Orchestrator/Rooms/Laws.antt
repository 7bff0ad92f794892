-- ===== src/Orchestrator/Rooms/Laws.antt =====
-- What the operations of internal/session/group.go do for the people concerned.
use lalo_lao_alo.Base.{ℕ, suc, ◌+◌, ◌≤◌, false, List, [], ◌∷◌, none, some, length, ◌≡◌, ◌≢◌, arith}
use lalo_lao_alo.Common.{
  UserId, CallId, Time, group, wrapped, already_in_call, max_participants, ok, err,
}
use lalo_lao_alo.Redis.{Redis, room}
use lalo_lao_alo.Session.{Session, Participant, caller, active_participants, find_participant}
use lalo_lao_alo.Orchestrator.Store
use lalo_lao_alo.Orchestrator.Services.{Services, room_limit, write_full, publish}
use lalo_lao_alo.Orchestrator.Rooms.{
  is_present, sort_invitees, join_group_session, close_room, end_room_for_all,
}

-- None of the users is in the room.
abbrev pub AllAbsent : List Participant → List UserId → Type 0
AllAbsent ps [] = Unit {0}
AllAbsent ps (u ∷ us) = (is_present (find_participant ps u) ≡ false) × AllAbsent ps us

-- Where the room is within the limit, `InviteToRoom` invites so few that the room is still within it
-- if all of them come, each user of the request is invited or skipped, and nobody is invited who is
-- active in the room.
sort_invitees_fits :
    (ps : List Participant) (max count : ℕ) (us : List UserId)
    → count ≤ max
    → let sorted = sort_invitees ps max count us in
      (count + length sorted.invited ≤ max)
      × (length sorted.invited + length sorted.skipped ≡ length us)
      × AllAbsent ps sorted.invited
unfolding sort_invitees
sort_invitees_fits ps max count [] h = (omega arith, omega arith, tt)
sort_invitees_fits ps max count (u ∷ us) h = (
  ground (arith, sort_invitees_fits ps max count us, sort_invitees_fits ps max (suc count) us),
  ground (arith, sort_invitees_fits ps max count us, sort_invitees_fits ps max (suc count) us),
  ground (arith, sort_invitees_fits ps max count us, sort_invitees_fits ps max (suc count) us),
)

-- A healthy Redis, as in the hub's store.
abbrev pub Answers : Redis → Type 0
Answers r = (n : ℕ) → r.fails n ≡ false

module _ (now : Time) (c : CallId) (u : UserId) (w : Services) (s : Session) (well : Answers w.rdb)
    (stored : w.rdb.sessions c ≡ some (room s)) (kind : s.call_type ≡ group) where
  -- In a stored group call, where Redis answers every command, a user who is listed as one who has
  -- left cannot join again: `JoinGroupSession` returns the wrapped error "already in call".
  pub rejoin_refused :
      (p : Participant)
      → find_participant s.participants u ≡ some p
      → p.left_at ≢ 0
      → (join_group_session now c u w).1 ≡ err (wrapped already_in_call)
  unfolding join_group_session Store.get Store.add_participant
  rejoin_refused p found left = ground (arith, well w.rdb.commands, well (suc w.rdb.commands))

  -- A user who is not listed does not get into a group call at its limit: the error is the wrapped
  -- "max participants".
  pub full_room_refused :
      find_participant s.participants u ≡ none
      → room_limit w ≤ length (active_participants s.participants)
      → (join_group_session now c u w).1 ≡ err (wrapped max_participants)
  unfolding join_group_session Store.get Store.add_participant room_limit
  full_room_refused absent full = ground (arith, well w.rdb.commands, well (suc w.rdb.commands))

  -- In a stored group call, where Redis answers every command, a user whose role is `caller` ends the
  -- room for all with no error although that user has left it.
  former_host_ends_room :
      (p : Participant)
      → find_participant s.participants u ≡ some p
      → p.role ≡ caller
      → p.left_at ≢ 0
      → (end_room_for_all now c u w).1 ≡ ok tt
  unfolding end_room_for_all close_room publish write_full Store.get Store.end_session
  former_host_ends_room p found role left =
      ground
        (arith, well w.rdb.commands, well (suc w.rdb.commands), well (suc (suc w.rdb.commands)))
