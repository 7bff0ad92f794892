-- ===== src/Events.antt =====
-- What the services publish on the event bus (internal/events/types.go, subjects.go): one
-- constructor for each subject that the signaling service and the orchestrator publish on, with the
-- payload's fields in the order of the struct. A failed publication is only logged by those services,
-- so every event counts as published.
pub mod Subjects
pub mod Bus
pub mod Deliveries
pub mod Published
use lalo_lao_alo.Base.{ℕ, Bool, List}
use lalo_lao_alo.Common.{UserId, CallId, CallType, EndReason, ℤ}
use lalo_lao_alo.Session.{Topology, Role}

pub data Event : Type 0 where
  call_initiated : CallId → UserId → UserId → CallType → Bool → ℕ → Event
  call_accepted : CallId → UserId → Topology → Event
  call_rejected : CallId → UserId → EndReason → Event
  call_ended : CallId → EndReason → ℤ → Event
  call_state_changed : CallId → Topology → Topology → Event
  quality_metrics : CallId → UserId → List ℕ → Event
  room_created : CallId → UserId → CallType → List UserId → Event
  room_closed : CallId → EndReason → ℤ → Event
  room_participant_joined : CallId → UserId → Role → Event
  room_participant_left : CallId → UserId → Event
