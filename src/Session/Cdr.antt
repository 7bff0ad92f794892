-- ===== src/Session/Cdr.antt =====
-- Call detail records: `GenerateCDR` of internal/session/cdr.go. The writes to Postgres are
-- effects of internal/session/orchestrator.go, listed there.
use lalo_lao_alo.Base.{ℕ, ◌&&◌, not, if◌then◌else◌, length, Bool}
use lalo_lao_alo.Common.{
  UserId, CallId, Time, CallType, EndReason, is_zero, ℤ, pos, seconds_between,
}
use lalo_lao_alo.Session.{Session, Topology}

pub record Cdr : Type 0 where
  pub call_id : CallId
  pub call_type : CallType
  pub initiator_id : UserId
  pub topology : Topology
  pub region : ℕ
  pub started_at : Time
  pub ended_at : Time
  pub duration_seconds : ℤ
  pub end_reason : EndReason
  pub participant_count : ℕ
  pub has_video : Bool

-- Times count seconds, so the conversion to whole seconds is the identity. A clock that is set back
-- gives a negative duration.
unfoldable pub generate_cdr : Session → Cdr
generate_cdr s = record {
  call_id = s.call_id;
  call_type = s.call_type;
  initiator_id = s.initiator_id;
  topology = s.topology;
  region = s.region;
  started_at = s.created_at;
  ended_at = s.ended_at;
  duration_seconds =
      if not (is_zero s.ended_at) && not (is_zero s.created_at)
      then seconds_between s.created_at s.ended_at
      else pos 0;
  end_reason = s.end_reason;
  participant_count = length s.participants;
  has_video = s.has_video;
}
