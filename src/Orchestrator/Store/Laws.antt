-- ===== src/Orchestrator/Store/Laws.antt =====
-- No operation of internal/session/store.go brings a session above the limit of participants.
use lalo_lao_alo.Base.{ℕ, zero, suc, ◌≤◌, List, Option, none, some, ◌≡◌, ◌≢◌, refl, length, arith}
use lalo_lao_alo.Common.{UserId, CallId, Time, EndReason, tx_failed, Result, ok, err}
use lalo_lao_alo.Redis.{Stored, room, call, as_room, Redis, M, exec_watched}
use lalo_lao_alo.Session.{Session, Participant, Role, active_participants}
use lalo_lao_alo.Session.Active.{active-append, active-leave_all, active-leave, active-role}
use lalo_lao_alo.Orchestrator.Store.{
  create, get, add_participant, remove_participant, end_session, attempt, retried, retry,
  role_change, update_participant_role, update_initiator,
}

abbrev pub present : List Participant → ℕ
present ps = length (active_participants ps)

-- Every room has at most `max` participants who have not left.
abbrev pub Capped : ℕ → Redis → Type 0
Capped max r =
    (c : CallId) (s : Session) → r.sessions c ≡ some (room s) → present s.participants ≤ max

pub create-Capped :
    (max : ℕ) (s : Session) (r : Redis)
    → present s.participants ≤ max
    → Capped max r
    → Capped max (create s r).0
unfolding create
create-Capped max s r k m c' s' e = ground (arith, m c' s')

-- The session that a record is read as has no more participants than the room it came from.
read-Capped :
    (max : ℕ) (c : CallId) (r : Redis) (o : Stored)
    → Capped max r
    → r.sessions c ≡ some o
    → present (as_room o).participants ≤ max
unfolding as_room active_participants
read-Capped max c r (room s) m h = m c s h
read-Capped max c r (call s) m h = omega arith

module _ (max : ℕ) (r : Redis) (m : Capped max r) (c' : CallId) (s' : Session) where
  add_known :
      (c : CallId) (p : Participant) (o : Option Stored)
      → r.sessions c ≡ o
      → p.left_at ≡ 0
      → (add_participant c p max r).0.sessions c' ≡ some (room s')
      → present s'.participants ≤ max
  unfolding add_participant
  add_known c p none h z e = ground (arith, m c' s')
  add_known c p (some o) h z e =
      ground (arith, m c' s', read-Capped max c r o m h, active-append (as_room o).participants p)

  remove_known :
      (now : Time) (c : CallId) (u : UserId) (o : Option Stored)
      → r.sessions c ≡ o
      → now ≢ 0
      → (remove_participant now c u r).0.sessions c' ≡ some (room s')
      → present s'.participants ≤ max
  unfolding remove_participant
  remove_known now c u none h z e = ground (arith, m c' s')
  remove_known now c u (some o) h z e =
      ground
        (arith, m c' s', read-Capped max c r o m h, active-leave now (as_room o).participants u)

  end_known :
      (now : Time) (c : CallId) (why : EndReason) (o : Option Stored)
      → r.sessions c ≡ o
      → now ≢ 0
      → (end_session now c why r).0.sessions c' ≡ some (room s')
      → present s'.participants ≤ max
  unfolding end_session
  end_known now c why none h z e = ground (arith, m c' s')
  end_known now c why (some o) h z e =
      ground (arith, m c' s', active-leave_all now (as_room o).participants)

-- A join never takes a room above the limit that it checks.
pub add_participant-Capped :
    (max : ℕ) (c : CallId) (p : Participant) (r : Redis)
    → p.left_at ≡ 0
    → Capped max r
    → Capped max (add_participant c p max r).0
add_participant-Capped max c p r z m c' s' = add_known max r m c' s' c p (r.sessions c) refl z

pub remove_participant-Capped :
    (max : ℕ) (now : Time) (c : CallId) (u : UserId) (r : Redis)
    → now ≢ 0
    → Capped max r
    → Capped max (remove_participant now c u r).0
remove_participant-Capped max now c u r z m c' s' =
    remove_known max r m c' s' now c u (r.sessions c) refl z

pub end_session-Capped :
    (max : ℕ) (now : Time) (c : CallId) (why : EndReason) (r : Redis)
    → now ≢ 0
    → Capped max r
    → Capped max (end_session now c why r).0
end_session-Capped max now c why r z m c' s' =
    end_known max r m c' s' now c why (r.sessions c) refl z

-- A change that adds nobody.
abbrev AddsNobody : (Session → Option Session) → Type 0
AddsNobody f = (s t : Session) → f s ≡ some t → present t.participants ≤ present s.participants

module _ (max : ℕ) (f : Session → Option Session) (k : AddsNobody f) (c c' : CallId)
    (s' : Session) where
  attempt_known :
      (r : Redis) (o : Option Stored)
      → Capped max r
      → r.sessions c ≡ o
      → (attempt c f r).0.sessions c' ≡ some (room s')
      → present s'.participants ≤ max
  unfolding get exec_watched
  attempt_known r none m h e = ground (arith, m c' s')
  attempt_known r (some o) m h e =
      ground (arith, m c' s', read-Capped max c r o m h, k (as_room o) s')

attempt-Capped :
    (max : ℕ) (f : Session → Option Session) (c : CallId) (r : Redis)
    → AddsNobody f
    → Capped max r
    → Capped max (attempt c f r).0
attempt-Capped max f c r k m c' s' = attempt_known max f k c c' s' r (r.sessions c) m refl

retried-Capped :
    (max : ℕ) (x : Redis × Result (Unit {0})) (again : M (Unit {0}))
    → Capped max x.0
    → ((r : Redis) → Capped max r → Capped max (again r).0)
    → Capped max (retried x again).0
retried-Capped max (r, ok a) again m k = m
retried-Capped max (r, err tx_failed) again m k = k r m
retried-Capped max (r, err e) again m k = m

retry-Capped :
    (max tries : ℕ) (c : CallId) (f : Session → Option Session) (r : Redis)
    → AddsNobody f
    → Capped max r
    → Capped max (retry tries c f r).0
unfolding retry
retry-Capped max zero c f r k m = m
retry-Capped max (suc tries) c f r k m =
    retried-Capped max (attempt c f r) (retry tries c f) (attempt-Capped max f c r k m)
      (λ q n. retry-Capped max tries c f q k n)

role_change-AddsNobody : (u : UserId) (new_role : Role) → AddsNobody (role_change u new_role)
role_change-AddsNobody u new_role s t e = ground (arith, active-role new_role s.participants u)

pub update_participant_role-Capped :
    (max : ℕ) (c : CallId) (u : UserId) (new_role : Role) (r : Redis)
    → Capped max r
    → Capped max (update_participant_role c u new_role r).0
unfolding update_participant_role
update_participant_role-Capped max c u new_role r m =
    retry-Capped max 3 c (role_change u new_role) r (role_change-AddsNobody u new_role) m

pub update_initiator-Capped :
    (max : ℕ) (c : CallId) (u : UserId) (r : Redis)
    → Capped max r
    → Capped max (update_initiator c u r).0
unfolding update_initiator
update_initiator-Capped max c u r m = retry-Capped max 3 c _ r (λ s t e. ground arith) m
