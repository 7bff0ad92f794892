-- ===== src/Abr.antt =====
-- The policy engine for the bitrate: internal/abr/policy_engine.go. This file has the samples, rules
-- and decisions; `float64` is a type with the operations that the code uses.
pub mod Rules
pub mod Reasons
pub mod Caps
pub mod Sums
pub mod Decisions
pub mod Engine
pub mod Keys
pub mod Ticks
pub mod Server
pub mod Reports
pub mod Defaults
use lalo_lao_alo.Base.{ℕ, Bool, Option, List}
use lalo_lao_alo.Common.{Time}
use lalo_lao_alo.Text.{Text}

pub record Float (F : Type 0) : Type 0 where
  pub nought : F
  pub add : F → F → F
  pub div : F → F → F
  pub of_int : ℕ → F
  pub less : F → F → Bool

-- The text of a tier.
abbrev pub QualityTier : Type 0
QualityTier = Text

-- The fields that the rules do not read are left out.
pub record MetricSample (F : Type 0) : Type 0 where
  pub timestamp : Time
  pub rtt_ms : F
  pub loss_percent : F
  pub bandwidth_kbps : F

pub record ParticipantMetrics (F : Type 0) : Type 0 where
  pub identity : Text
  pub room_name : Text
  pub samples : List (MetricSample F)
  pub updated_at : Time

pub record PolicyDecision : Type 0 where
  pub max_tier : Option QualityTier
  pub force_audio_only : Option Bool
  pub max_bitrate_kbps : Option ℕ
  pub force_codec : Option Text
  pub reason : Text

pub data Condition : Type 0 where
  avg_loss_above avg_rtt_above bandwidth_below other_condition : Condition

pub data Action : Type 0 where
  cap_tier force_audio cap_bitrate other_action : Action

pub record PolicyRule (F : Type 0) : Type 0 where
  pub name : Text
  pub condition : Condition
  pub threshold : F
  pub action : Action
  pub action_value : Text

pub record PolicyConfig (F : Type 0) : Type 0 where
  pub eval_interval_seconds : ℕ
  pub metric_window_seconds : ℕ
  pub rules : List (PolicyRule F)
