-- ===== src/Orchestrator/Rooms.antt =====
-- Group calls: internal/session/group.go.
pub mod Laws
pub mod Hosts
use lalo_lao_alo.Base.{
  ℕ, suc, ◌+◌, Bool, true, false, not, ◌&&◌, ◌||◌, List, [], ◌∷◌, Option, none, some, leb, ltb,
  ◌==◌, if◌then◌else◌, length, is_empty,
}
use lalo_lao_alo.Common.{
  UserId, CallId, Time, CallType, group, is_group, is_video, EndReason, blank, all_left, host_ended,
  Error, too_many, no_invitees, not_group, already_in_room, not_active, not_host, Result, ok, err,
}
use lalo_lao_alo.Session.{
  Session, Participant, Role, caller, callee, participant, other_role, sfu, is_active,
  active_participants, find_participant,
}
use lalo_lao_alo.Session.Cdr.{generate_cdr}
use lalo_lao_alo.Events.{
  call_ended, room_created, room_closed, room_participant_joined, room_participant_left,
}
use lalo_lao_alo.Orchestrator.Store
use lalo_lao_alo.Orchestrator.Services.{
  Services, O, pure, fail, and_then, ◌>>=◌, ◌>>◌, guard, store, wrapping, logged, publish,
  room_limit, write_full,
}
use lalo_lao_alo.Orchestrator.Calls.{Resolver, Access, access, joined, limited}

-- One more resolved identifier in front of the others; the first error is the result.
abbrev resolved_first : Result UserId → Result (List UserId) → Result (List UserId)
resolved_first (ok v) (ok vs) = ok (v ∷ vs)
resolved_first (ok v) (err e) = err e
resolved_first (err e) rest = err e

-- `ResolveAll`: in order, up to the first error.
unfoldable pub resolve_all : Resolver → List UserId → Result (List UserId)
resolve_all resolve [] = ok []
resolve_all resolve (u ∷ us) = resolved_first (resolve u) (resolve_all resolve us)

abbrev pub all_resolved : Resolver → List UserId → O (List UserId)
all_resolved resolve us w = (w, resolve_all resolve us)

pub record CreateGroupRequest : Type 0 where
  pub initiator_id : UserId
  pub participants : List UserId
  pub call_type : CallType
  pub region : ℕ

abbrev pub new_room : Time → CallId → CreateGroupRequest → Session
new_room now fresh req = record {
  call_id = fresh;
  call_type = group;
  topology = sfu;
  initiator_id = req.initiator_id;
  region = req.region;
  has_video = is_video req.call_type;
  participants = joined req.initiator_id caller (is_video req.call_type) now ∷ [];
  created_at = now;
  ended_at = 0;
  end_reason = blank;
}

-- The identifier of the room and the invited users.
unfoldable pub create_group_session :
    Resolver → Time → CallId → CreateGroupRequest → O (CallId × List UserId)
create_group_session resolve now fresh req = do
  invitees ← wrapping (all_resolved resolve req.participants)
  limited λ max. guard (not (ltb max (1 + length invitees))) (too_many (1 + length invitees) max)
  guard (not (is_empty invitees)) no_invitees
  wrapping (store (Store.create (new_room now fresh req)))
  publish (room_created fresh req.initiator_id req.call_type invitees)
  pure (fresh, invitees)

abbrev pub is_present : Option Participant → Bool
is_present none = false
is_present (some p) = is_active p

unfoldable pub join_group_session : Time → CallId → UserId → O Access
join_group_session now c u = do
  s ← wrapping (store (Store.get c))
  guard (is_group s.call_type) not_group
  guard (not (is_present (find_participant s.participants u))) already_in_room
  wrapping
      (limited λ max. store (Store.add_participant c (joined u participant s.has_video now) max))
  publish (room_participant_joined c u participant)
  pure (access sfu u false)

unfoldable pub close_room : Time → CallId → EndReason → O (Unit {0})
close_room now c why = do
  s ← wrapping (store (Store.end_session now c why))
  write_full s
  publish (room_closed c why (generate_cdr s).duration_seconds)
  publish (call_ended c why (generate_cdr s).duration_seconds)

unfoldable pub leave_group_session : Time → CallId → UserId → O (Unit {0})
leave_group_session now c u = do
  s ← wrapping (store (Store.get c))
  guard (is_group s.call_type) not_group
  s' ← wrapping (store (Store.remove_participant now c u))
  publish (room_participant_left c u)
  if is_empty (active_participants s'.participants) then close_room now c all_left else pure tt

abbrev pub is_caller : Role → Bool
is_caller caller = true
is_caller _ = false

abbrev pub is_host : Option Participant → Bool
is_host none = false
is_host (some p) = is_caller p.role

pub record Invitations : Type 0 where
  pub invited : List UserId
  pub skipped : List UserId

-- The loop of `InviteToRoom`; `count` is `currentCount`.
unfoldable pub sort_invitees : List Participant → ℕ → ℕ → List UserId → Invitations
sort_invitees ps max count [] = record { invited = []; skipped = [] }
sort_invitees ps max count (u ∷ us) =
    let refused = leb max count || is_present (find_participant ps u) in
    let rest = sort_invitees ps max (if refused then count else suc count) us in
    if refused
    then record rest { skipped = u ∷ rest.skipped }
    else record rest { invited = u ∷ rest.invited }

unfoldable pub invite_to_room : Resolver → CallId → UserId → List UserId → O Invitations
invite_to_room resolve c inviter_id invitees = do
  us ← wrapping (all_resolved resolve invitees)
  s ← wrapping (store (Store.get c))
  guard (is_group s.call_type) not_group
  guard (is_present (find_participant s.participants inviter_id)) not_active
  guard (is_host (find_participant s.participants inviter_id)) not_host
  limited λ max.
      pure (sort_invitees s.participants max (length (active_participants s.participants)) us)

unfoldable pub transfer_host : CallId → UserId → O (Unit {0})
transfer_host c u = do
  s ← wrapping (store (Store.get c))
  guard (is_group s.call_type) not_group
  guard (is_present (find_participant s.participants u)) not_active
  wrapping (store (Store.update_participant_role c u caller))
  logged (store (Store.update_initiator c u))

unfoldable pub end_room_for_all : Time → CallId → UserId → O (Unit {0})
end_room_for_all now c host_id = do
  s ← wrapping (store (Store.get c))
  guard (is_group s.call_type) not_group
  guard (is_host (find_participant s.participants host_id)) not_host
  close_room now c host_ended

unfoldable pub get_room_participants : CallId → O (List Participant)
get_room_participants c = do s ← store (Store.get c); pure (active_participants s.participants)
