-- ===== src/Orchestrator/Store.antt =====
-- The orchestrator's session store: internal/session/store.go.
pub mod Laws
pub mod Runs
pub mod Ends
use lalo_lao_alo.Base.{
  ℕ, zero, suc, ◌<◌, Bool, true, false, not, ◌&&◌, List, [], ◌∷◌, ◌++◌, Option, none, some, leb,
  ◌==◌, if◌then◌else◌, length, update,
}
use lalo_lao_alo.Common.{
  UserId, CallId, Time, EndReason, Error, session_not_found, user_busy, already_in_call,
  max_participants, not_participant, tx_failed, lock_exhausted, Result, ok, err, is_group, is_zero,
}
use lalo_lao_alo.Session.{
  Session, Participant, Role, MediaState, active_participants, find_participant, modify_participant,
  leave_at, leave_all, with_role,
}
use lalo_lao_alo.Redis.{
  Stored, room, as_room, Redis, M, pure, fail, and_then, ◌>>=◌, ◌>>◌, guard, require, exec, query,
  exec_watched,
}

abbrev pub is_some : {A : Type 0} → Option A → Bool
is_some none = false
is_some (some a) = true

-- Writes of one key for each participant, in the order of the list.
abbrev pub mark_all : CallId → List Participant → (UserId → Option CallId) → UserId → Option CallId
mark_all c [] marks = marks
mark_all c (p ∷ ps) marks = mark_all c ps (update marks p.user_id (some c))

abbrev pub unmark_all : List Participant → (UserId → Option CallId) → UserId → Option CallId
unmark_all [] marks = marks
unmark_all (p ∷ ps) marks = unmark_all ps (update marks p.user_id none)

abbrev pub add_all : List Participant → (UserId → Bool) → UserId → Bool
add_all [] members = members
add_all (p ∷ ps) members = add_all ps (update members p.user_id true)

abbrev pub put_room : Session → Redis → Redis
put_room s r = record r {
  sessions = update r.sessions s.call_id (some (room s));
  active_call = mark_all s.call_id s.participants r.active_call;
  participants =
      update r.participants s.call_id (add_all s.participants (r.participants s.call_id));
}

-- Only the initiator is checked to be free.
unfoldable pub create : Session → M (Unit {0})
unfolding query exec
create s = do
  marked ← query (λ r. is_some (r.active_call s.initiator_id))
  guard (not marked) user_busy
  exec (put_room s)

abbrev pub decoded : Option Stored → Option Session
decoded none = none
decoded (some v) = some (as_room v)

unfoldable pub get : CallId → M Session
unfolding query as_room
get c = do found ← query (λ r. decoded (r.sessions c)); require found session_not_found

abbrev pub save : CallId → Session → Redis → Redis
save c s r = record r { sessions = update r.sessions c (some (room s)) }

unfoldable pub update_session : Session → M (Unit {0})
unfolding exec
update_session s = exec (save s.call_id s)

abbrev pub with_participant : Participant → Session → Session
with_participant p s = record s { participants = s.participants ++ p ∷ [] }

abbrev pub put_participant : CallId → Session → UserId → Redis → Redis
put_participant c s u r = record r {
  sessions = update r.sessions c (some (room s));
  active_call = update r.active_call u (some c);
  participants = update r.participants c (update (r.participants c) u true);
}

unfoldable pub add_participant : CallId → Participant → ℕ → M (Unit {0})
unfolding get query exec
add_participant c p max = do
  s ← get c
  guard (not (is_some (find_participant s.participants p.user_id))) already_in_call
  guard (not (leb max (length (active_participants s.participants)))) max_participants
  marked ← query (λ r. is_some (r.active_call p.user_id))
  guard (not marked) user_busy
  exec (put_participant c (with_participant p s) p.user_id)

abbrev pub drop_participant : CallId → Session → UserId → Redis → Redis
drop_participant c s u r = record r {
  sessions = update r.sessions c (some (room s));
  active_call = update r.active_call u none;
  participants = update r.participants c (update (r.participants c) u false);
}

abbrev pub left_session : Time → UserId → Session → Session
left_session now u s = record s {
  participants = modify_participant (leave_at now) s.participants u;
}

abbrev remove_found : Time → CallId → UserId → Session → Option Participant → M Session
remove_found now c u s none = pure s
remove_found now c u s (some p) = do
  exec (drop_participant c (left_session now u s) u)
  pure (left_session now u s)

unfoldable pub remove_participant : Time → CallId → UserId → M Session
unfolding get exec
remove_participant now c u = do
  s ← get c
  remove_found now c u s (find_participant s.participants u)

abbrev pub ended_session : Time → EndReason → Session → Session
ended_session now why s = record s {
  ended_at = now;
  end_reason = why;
  participants = leave_all now s.participants;
}

abbrev pub close_session : CallId → Session → Redis → Redis
close_session c s r = record r {
  sessions = update r.sessions c (some (room s));
  active_call = unmark_all s.participants r.active_call;
  participants = update r.participants c (λ u. false);
}

unfoldable pub end_session : Time → CallId → EndReason → M Session
unfolding get exec
end_session now c why = do
  s ← get c
  let s' = ended_session now why s
  exec (close_session c s')
  pure s'

abbrev pub remove_session : CallId → Session → Redis → Redis
remove_session c s r = record r {
  sessions = update r.sessions c none;
  active_call = unmark_all s.participants r.active_call;
  participants = update r.participants c (λ u. false);
}

-- A session that is not there is no error.
abbrev pub delete_found : CallId → Redis × Result Session → Redis × Result (Unit {0})
delete_found c (r, ok s) = exec (remove_session c s) r
delete_found c (r, err session_not_found) = (r, ok tt)
delete_found c (r, err e) = (r, err e)

unfoldable pub delete : CallId → M (Unit {0})
unfolding get exec
delete c r = delete_found c (get c r)

-- One attempt of the optimistic loops: `found` is whether the change applies.
abbrev pub attempt : CallId → (Session → Option Session) → M (Unit {0})
attempt c change = do
  s ← get c
  s' ← require (change s) not_participant
  exec_watched tx_failed (save c s')

-- The loops run at most three times, and go on only after a lost transaction.
abbrev pub retried : Redis × Result (Unit {0}) → M (Unit {0}) → Redis × Result (Unit {0})
retried (r, err tx_failed) again = again r
retried (r, x) again = (r, x)

unfoldable pub retry : ℕ → CallId → (Session → Option Session) → M (Unit {0})
unfolding get exec_watched
retry zero c change r = (r, err lock_exhausted)
retry (suc tries) c change r = retried (attempt c change r) (retry tries c change)

abbrev pub role_change : UserId → Role → Session → Option Session
role_change u new_role s =
    if is_some (find_participant s.participants u)
    then some (record s { participants = modify_participant (with_role new_role) s.participants u })
    else none

unfoldable pub update_participant_role : CallId → UserId → Role → M (Unit {0})
update_participant_role c u new_role = retry 3 c (role_change u new_role)

unfoldable pub update_initiator : CallId → UserId → M (Unit {0})
update_initiator c u = retry 3 c (λ s. some (record s { initiator_id = u }))

-- `ScanGroupSessions` over the keys that SCAN returns.
abbrev pub keep_group : Result (Option Session) → List Session → List Session
keep_group (ok (some s)) rest =
    if is_group s.call_type && is_zero s.ended_at then s ∷ rest else rest
keep_group (ok none) rest = rest
keep_group (err e) rest = rest

unfoldable pub scan_group_sessions : List CallId → Redis → Redis × List Session
unfolding query as_room
scan_group_sessions [] r = (r, [])
scan_group_sessions (c ∷ keys) r =
    let (r', found) = query (λ db. decoded (db.sessions c)) r in
    let (r'', rest) = scan_group_sessions keys r' in (r'', keep_group found rest)
