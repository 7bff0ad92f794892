-- ===== src/Orchestrator/Calls.antt =====
-- Calls of two: internal/session/orchestrator.go. `now` is the clock, `fresh` what `uuid.NewString`
-- returns, and `resolve` the lookup of internal/session/identity_resolver.go for one identifier.
-- Signing a LiveKit token and computing TURN credentials leave the state alone; a response says
-- for whom they were made. A token that cannot be signed is only logged by the code.
use lalo_lao_alo.Base.{
  ℕ, Bool, true, false, ◌&&◌, ◌||◌, [], ◌∷◌, Option, none, some, leb, ◌==◌, if◌then◌else◌, length,
}
use lalo_lao_alo.Common.{
  UserId, CallId, Time, CallType, is_one_to_one, EndReason, blank, normal, not_participant,
  cannot_fall_back, Result,
}
use lalo_lao_alo.Session.{
  Session, Participant, MediaState, Role, caller, callee, Topology, p2p, turn, sfu,
  active_participants, find_participant, modify_participant, with_media,
}
use lalo_lao_alo.Session.Escalation.{
  decide_topology, should_escalate_to_sfu, should_fallback_to_turn, is_sfu, is_p2p, is_turn,
}
use lalo_lao_alo.Session.Permissions.{accept_call, check_permission}
use lalo_lao_alo.Session.Cdr.{generate_cdr}
use lalo_lao_alo.Events.{call_initiated, call_accepted, call_ended, call_state_changed}
use lalo_lao_alo.Orchestrator.Store
use lalo_lao_alo.Orchestrator.Services.{
  O, pure, fail, ◌>>=◌, ◌>>◌, guard, store, wrapping, publish, room_limit, write_full,
}

abbrev pub Resolver : Type 0
Resolver = UserId → Result UserId

abbrev pub resolved : Resolver → UserId → O UserId
resolved resolve u w = (w, resolve u)

pub record CreateSessionRequest : Type 0 where
  pub caller_id : UserId
  pub callee_id : UserId
  pub call_type : CallType
  pub has_video : Bool
  pub region : ℕ

pub record Access : Type 0 where
  pub topology : Topology
  pub turn_for : Option UserId
  pub livekit_for : Option UserId
  pub is_escalated : Bool

-- The credentials that a path asks for.
abbrev pub access : Topology → UserId → Bool → Access
access t u escalated = record {
  topology = t;
  turn_for = if is_p2p t || is_turn t then some u else none;
  livekit_for = if is_sfu t then some u else none;
  is_escalated = escalated;
}

abbrev pub joined : UserId → Role → Bool → Time → Participant
joined u r has_video now = record {
  user_id = u;
  role = r;
  media_state = record { audio_enabled = true; video_enabled = has_video; screen_sharing = false };
  joined_at = now;
  left_at = 0;
}

abbrev pub new_session : Time → CallId → CreateSessionRequest → UserId → Session
new_session now fresh req callee_id = record {
  call_id = fresh;
  call_type = req.call_type;
  topology = decide_topology 2;
  initiator_id = req.caller_id;
  region = req.region;
  has_video = req.has_video;
  participants =
      joined req.caller_id caller req.has_video now
      ∷ joined callee_id callee req.has_video now
      ∷ [];
  created_at = now;
  ended_at = 0;
  end_reason = blank;
}

unfoldable pub create_session :
    Resolver → Time → CallId → CreateSessionRequest → O (CallId × Access)
create_session resolve now fresh req = do
  callee_id ← wrapping (resolved resolve req.callee_id)
  wrapping (store (Store.create (new_session now fresh req callee_id)))
  publish (call_initiated fresh req.caller_id callee_id req.call_type req.has_video req.region)
  pure (fresh, access (decide_topology 2) req.caller_id false)

pub record JoinSessionRequest : Type 0 where
  pub call_id : CallId
  pub user_id : UserId
  pub role : Role
  pub has_video : Bool

abbrev pub checked : Result (Unit {0}) → O (Unit {0})
checked x w = (w, x)

abbrev pub limited : {A : Type 0} → (ℕ → O A) → O A
limited f w = f (room_limit w) w

-- The escalation of a call that has become too large for a direct path.
unfoldable pub escalate : Session → Bool → O Topology
escalate s true = do wrapping (store (Store.update_session (record s { topology = sfu }))); pure sfu
escalate s false = pure s.topology

unfoldable pub join_session : Time → JoinSessionRequest → O Access
join_session now req = do
  checked (check_permission req.role accept_call)
  wrapping (
      limited λ max.
        store
          (Store.add_participant req.call_id (joined req.user_id req.role req.has_video now) max))
  s ← store (Store.get req.call_id)
  let escalates = should_escalate_to_sfu s.topology (length (active_participants s.participants))
  t ← escalate s escalates
  publish (call_accepted req.call_id req.user_id t)
  pure (access t req.user_id escalates)

-- `EndSession`.
unfoldable pub end_session : Time → CallId → EndReason → O (Unit {0})
end_session now c why = do
  s ← wrapping (store (Store.end_session now c why))
  write_full s
  publish (call_ended c why (generate_cdr s).duration_seconds)

abbrev pub should_end : Session → Bool
should_end s =
    let active = length (active_participants s.participants) in
    active == 0 || is_one_to_one s.call_type && leb active 1

unfoldable pub leave_session : Time → CallId → UserId → O (Unit {0})
leave_session now c u = do
  s ← wrapping (store (Store.remove_participant now c u))
  if should_end s then end_session now c normal else pure tt

abbrev pub set_media : UserId → MediaState → Session → Session
set_media u m s = record s { participants = modify_participant (with_media m) s.participants u }

abbrev pub media_of : UserId → MediaState → Session → Option Participant → O (Unit {0})
media_of u m s none = fail not_participant
media_of u m s (some p) = store (Store.update_session (set_media u m s))

unfoldable pub update_media_state : CallId → UserId → MediaState → O (Unit {0})
update_media_state c u m = do
  s ← store (Store.get c)
  media_of u m s (find_participant s.participants u)

-- The credentials are the initiator's.
unfoldable pub fallback_to_turn : CallId → O UserId
fallback_to_turn c = do
  s ← store (Store.get c)
  guard (should_fallback_to_turn s.topology true) cannot_fall_back
  wrapping (store (Store.update_session (record s { topology = turn })))
  publish (call_state_changed c p2p turn)
  pure s.initiator_id
