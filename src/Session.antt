-- ===== src/Session.antt =====
-- The orchestrator's view of a call: internal/session/types.go.
pub mod Escalation
pub mod Permissions
pub mod Cdr
pub mod History
pub mod Active
use lalo_lao_alo.Base.{ℕ, Bool, List, [], ◌∷◌, Option, none, some, ◌==◌, if◌then◌else◌, filter, map}
use lalo_lao_alo.Common.{UserId, CallId, Time, CallType, EndReason, is_zero}

-- `unset_path` is the text "", which a record without the field reads as.
pub data Topology : Type 0 where
  unset_path p2p turn sfu : Topology

pub data Role : Type 0 where
  caller callee participant other_role : Role

pub record MediaState : Type 0 where
  pub audio_enabled : Bool
  pub video_enabled : Bool
  pub screen_sharing : Bool

pub record Participant : Type 0 where
  pub user_id : UserId
  pub role : Role
  pub media_state : MediaState
  pub joined_at : Time
  pub left_at : Time

pub record Session : Type 0 where
  pub call_id : CallId
  pub call_type : CallType
  pub topology : Topology
  pub initiator_id : UserId
  pub region : ℕ
  pub has_video : Bool
  pub participants : List Participant
  pub created_at : Time
  pub ended_at : Time
  pub end_reason : EndReason

-- `p.LeftAt.IsZero()`.
abbrev pub is_active : Participant → Bool
is_active p = is_zero p.left_at

-- `ActiveParticipants`.
unfoldable pub active_participants : List Participant → List Participant
active_participants ps = filter is_active ps

-- `FindParticipant`: the first participant with the identifier.
unfoldable pub find_participant : List Participant → UserId → Option Participant
find_participant [] u = none
find_participant (p ∷ ps) u = if p.user_id == u then some p else find_participant ps u

-- A write through the pointer that `FindParticipant` returns.
unfoldable pub modify_participant :
    (Participant → Participant) → List Participant → UserId → List Participant
modify_participant f [] u = []
modify_participant f (p ∷ ps) u = if p.user_id == u then f p ∷ ps else p ∷ modify_participant f ps u

abbrev pub leave_at : Time → Participant → Participant
leave_at now p = record p { left_at = now }

abbrev pub with_media : MediaState → Participant → Participant
with_media m p = record p { media_state = m }

abbrev pub with_role : Role → Participant → Participant
with_role r p = record p { role = r }

-- The loop of `EndSession`: everybody who is still there leaves now.
unfoldable pub leave_all : Time → List Participant → List Participant
leave_all now = map (λ p. if is_active p then leave_at now p else p)
