-- ===== src/Orchestrator/Marks.antt =====
-- The orchestrator does not touch what the signaling hub keeps of a call: its operations keep the
-- hub's marks, whatever fails in them.
use lalo_lao_alo.Base.{ℕ, zero, suc, Option, arith}
use lalo_lao_alo.Common.{UserId, CallId, Time, EndReason, tx_failed, Result, ok, err}
use lalo_lao_alo.Redis.{Redis, M, exec_watched}
use lalo_lao_alo.Session.{Session, Participant}
use lalo_lao_alo.Signaling.Store.Marks.{Marked}
use lalo_lao_alo.Orchestrator.Store.{
  create, get, update_session, add_participant, remove_participant, end_session, retry, attempt,
  retried,
}

pub create-Marked : (s : Session) (r : Redis) → Marked r → Marked (create s r).0
unfolding create
create-Marked s r m c' s' e l = ground (arith, m c' s')

pub get-Marked : (c : CallId) (r : Redis) → Marked r → Marked (get c r).0
unfolding get
get-Marked c r m c' s' e l = ground (arith, m c' s')

pub update_session-Marked : (s : Session) (r : Redis) → Marked r → Marked (update_session s r).0
unfolding update_session
update_session-Marked s r m c' s' e l = ground (arith, m c' s')

pub add_participant-Marked :
    (c : CallId) (p : Participant) (max : ℕ) (r : Redis)
    → Marked r
    → Marked (add_participant c p max r).0
unfolding add_participant
add_participant-Marked c p max r m c' s' e l = ground (arith, m c' s')

pub remove_participant-Marked :
    (now : Time) (c : CallId) (u : UserId) (r : Redis)
    → Marked r
    → Marked (remove_participant now c u r).0
unfolding remove_participant
remove_participant-Marked now c u r m c' s' e l = ground (arith, m c' s')

pub end_session-Marked :
    (now : Time) (c : CallId) (why : EndReason) (r : Redis)
    → Marked r
    → Marked (end_session now c why r).0
unfolding end_session
end_session-Marked now c why r m c' s' e l = ground (arith, m c' s')

attempt-Marked :
    (c : CallId) (f : Session → Option Session) (r : Redis) → Marked r → Marked (attempt c f r).0
unfolding get exec_watched
attempt-Marked c f r m c' s' e l = ground (arith, m c' s')

retried-Marked :
    (x : Redis × Result (Unit {0})) (again : M (Unit {0}))
    → Marked x.0
    → ((r : Redis) → Marked r → Marked (again r).0)
    → Marked (retried x again).0
retried-Marked (r, ok a) again m k = m
retried-Marked (r, err tx_failed) again m k = k r m
retried-Marked (r, err e) again m k = m

pub retry-Marked :
    (tries : ℕ) (c : CallId) (f : Session → Option Session) (r : Redis)
    → Marked r
    → Marked (retry tries c f r).0
unfolding retry
retry-Marked zero c f r m = m
retry-Marked (suc tries) c f r m =
    retried-Marked (attempt c f r) (retry tries c f) (attempt-Marked c f r m)
      (retry-Marked tries c f)
