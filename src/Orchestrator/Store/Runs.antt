-- ===== src/Orchestrator/Store/Runs.antt =====
-- Sequences of the writing operations of internal/session/store.go, with one limit for all joins.
use lalo_lao_alo.Base.{ℕ, ◌≤◌, List, [], ◌∷◌, ◌≡◌, ◌≢◌}
use lalo_lao_alo.Common.{UserId, CallId, Time, EndReason}
use lalo_lao_alo.Redis.{Redis}
use lalo_lao_alo.Session.{Session, Participant, Role}
use lalo_lao_alo.Orchestrator.Store.{
  create, add_participant, remove_participant, end_session, update_participant_role,
  update_initiator,
}
use lalo_lao_alo.Orchestrator.Store.Laws.{
  present, Capped, create-Capped, add_participant-Capped, remove_participant-Capped,
  end_session-Capped, update_participant_role-Capped, update_initiator-Capped,
}

pub data Write : Type 0 where
  creates : Session → Write
  joins : CallId → Participant → Write
  leaves : Time → CallId → UserId → Write
  ends : Time → CallId → EndReason → Write
  promotes : CallId → UserId → Role → Write
  hands_over : CallId → UserId → Write

unfoldable pub perform : ℕ → Write → Redis → Redis
perform max (creates s) r = (create s r).0
perform max (joins c p) r = (add_participant c p max r).0
perform max (leaves now c u) r = (remove_participant now c u r).0
perform max (ends now c why) r = (end_session now c why r).0
perform max (promotes c u role) r = (update_participant_role c u role r).0
perform max (hands_over c u) r = (update_initiator c u r).0

unfoldable pub perform_all : ℕ → List Write → Redis → Redis
perform_all max [] r = r
perform_all max (w ∷ ws) r = perform_all max ws (perform max w r)

-- What the callers see to: a new session is within the limit, who joins has not left, and the
-- clock is not Go's zero time.
abbrev pub IsProper : ℕ → Write → Type 0
IsProper max (creates s) = present s.participants ≤ max
IsProper max (joins c p) = p.left_at ≡ 0
IsProper max (leaves now c u) = now ≢ 0
IsProper max (ends now c why) = now ≢ 0
IsProper max (promotes c u role) = Unit {0}
IsProper max (hands_over c u) = Unit {0}

abbrev pub AreProper : ℕ → List Write → Type 0
AreProper max [] = Unit {0}
AreProper max (w ∷ ws) = IsProper max w × AreProper max ws

perform-Capped :
    (max : ℕ) (w : Write) (r : Redis) → IsProper max w → Capped max r → Capped max (perform max w r)
unfolding perform
perform-Capped max (creates s) r p m = create-Capped max s r p m
perform-Capped max (joins c u) r p m = add_participant-Capped max c u r p m
perform-Capped max (leaves now c u) r p m = remove_participant-Capped max now c u r p m
perform-Capped max (ends now c why) r p m = end_session-Capped max now c why r p m
perform-Capped max (promotes c u role) r p m = update_participant_role-Capped max c u role r m
perform-Capped max (hands_over c u) r p m = update_initiator-Capped max c u r m

-- A sequence of store operations (create, join, leave, end, change of role, change of initiator)
-- with one limit, in which a created session is within the limit, a joining participant has no time
-- of leaving, and the clock of a leave or an end is not Go's zero time, leaves every room within the
-- limit if every room was within it before, wherever Redis commands fail or transactions are lost.
pub perform_all-Capped :
    (max : ℕ) (ws : List Write) (r : Redis)
    → AreProper max ws
    → Capped max r
    → Capped max (perform_all max ws r)
unfolding perform_all
perform_all-Capped max [] r p m = m
perform_all-Capped max (w ∷ ws) r p m =
    perform_all-Capped max ws (perform max w r) p.1 (perform-Capped max w r p.0 m)
