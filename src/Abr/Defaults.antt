-- ===== src/Abr/Defaults.antt =====
-- The default policy of internal/abr/policy_engine.go, and what it decides.
use lalo_lao_alo.Base.{
  ℕ, ◌≡◌, refl, Bool, true, false, ◌||◌, ◌&&◌, List, [], ◌∷◌, Option, none, some, if◌then◌else◌,
}
use lalo_lao_alo.Text.{text}
use lalo_lao_alo.Abr.{
  Float, QualityTier, MetricSample, PolicyDecision, PolicyConfig, avg_loss_above, avg_rtt_above,
  bandwidth_below, cap_tier, force_audio,
}
use lalo_lao_alo.Abr.Rules.{
  average, no_decision, act, apply_rules, is_triggered, matching, evaluate_participant, tier_rank,
}
use lalo_lao_alo.Abr.Engine.{PolicyEngine}

module _ {F : Type 0} (float : Float F) where
  -- The thresholds 8.0, 15.0, 300.0 and 80.0 are whole numbers.
  unfoldable pub default_policy_config : PolicyConfig F
  default_policy_config = record {
    eval_interval_seconds = 10;
    metric_window_seconds = 30;
    rules =
        record {
          name = text "high_loss_cap_fair";
          condition = avg_loss_above;
          threshold = float.of_int 8;
          action = cap_tier;
          action_value = text "fair";
        }
        ∷ record {
          name = text "very_high_loss_cap_poor";
          condition = avg_loss_above;
          threshold = float.of_int 15;
          action = cap_tier;
          action_value = text "poor";
        }
        ∷ record {
          name = text "high_rtt_cap_fair";
          condition = avg_rtt_above;
          threshold = float.of_int 300;
          action = cap_tier;
          action_value = text "fair";
        }
        ∷ record {
          name = text "low_bandwidth_audio_only";
          condition = bandwidth_below;
          threshold = float.of_int 80;
          action = force_audio;
          action_value = text "true";
        }
        ∷ [];
  }

-- `NewPolicyEngine`.
unfoldable pub new_policy_engine : {F : Type 0} → PolicyConfig F → PolicyEngine F
new_policy_engine cfg = record {
  cfg = cfg;
  metrics = [];
  stop_closed = false;
  loops = 0;
  running = false;
}

abbrev pub tier_of : Option PolicyDecision → Option QualityTier
tier_of none = none
tier_of (some d) = d.max_tier

abbrev pub audio_of : Option PolicyDecision → Option Bool
audio_of none = none
audio_of (some d) = d.force_audio_only

-- The loop over the default rules, by which of them are triggered.
abbrev when : Bool → (PolicyDecision → PolicyDecision) → PolicyDecision → PolicyDecision
when b f d = if b then f d else d

abbrev outcome : Bool → Bool → Bool → Bool → Option PolicyDecision
outcome a b c d =
    let loss = when a (act cap_tier (text "high_loss_cap_fair") (text "fair")) no_decision in
    let more = when b (act cap_tier (text "very_high_loss_cap_poor") (text "poor")) loss in
    let rtt = when c (act cap_tier (text "high_rtt_cap_fair") (text "fair")) more in
    matching (
      when d (act force_audio (text "low_bandwidth_audio_only") (text "true")) rtt,
      if d then true else if c then true else if b then true else if a then true else false,
    )

outcome_lem :
    (a b c d : Bool)
    → (tier_of (outcome a b c d)
        ≡ (if b then some (text "poor") else if a || c then some (text "fair") else none))
      × (audio_of (outcome a b c d) ≡ (if d then some true else none))
unfolding act tier_rank
outcome_lem true true true true = (refl, refl)
outcome_lem true true true false = (refl, refl)
outcome_lem true true false true = (refl, refl)
outcome_lem true true false false = (refl, refl)
outcome_lem true false true true = (refl, refl)
outcome_lem true false true false = (refl, refl)
outcome_lem true false false true = (refl, refl)
outcome_lem true false false false = (refl, refl)
outcome_lem false true true true = (refl, refl)
outcome_lem false true true false = (refl, refl)
outcome_lem false true false true = (refl, refl)
outcome_lem false true false false = (refl, refl)
outcome_lem false false true true = (refl, refl)
outcome_lem false false true false = (refl, refl)
outcome_lem false false false true = (refl, refl)
outcome_lem false false false false = (refl, refl)

module _ {F : Type 0} (float : Float F) (s : MetricSample F) (ss : List (MetricSample F)) where
  abbrev pub loss_above : ℕ → Bool
  loss_above n = float.less (float.of_int n) (average float (λ m. m.loss_percent) (s ∷ ss))

  abbrev pub rtt_above : ℕ → Bool
  rtt_above n = float.less (float.of_int n) (average float (λ m. m.rtt_ms) (s ∷ ss))

  -- A bandwidth of 0 has not been measured.
  abbrev pub bandwidth_under : ℕ → Bool
  bandwidth_under n =
      float.less float.nought (average float (λ m. m.bandwidth_kbps) (s ∷ ss))
      && float.less (average float (λ m. m.bandwidth_kbps) (s ∷ ss)) (float.of_int n)

  -- What the default policy decides for the samples `s ∷ ss`: the tier is capped at "poor" if the
  -- average loss is above 15, and else at "fair" if it is above 8 or the average round trip is above
  -- 300; audio only is forced if the average bandwidth is measured and below 80.
  default_policy_decides :
      let d = evaluate_participant float (default_policy_config float).rules (s ∷ ss) in
      (tier_of d ≡ (
        if loss_above 15
        then some (text "poor")
        else if loss_above 8 || rtt_above 300
        then some (text "fair")
        else none))
      × (audio_of d ≡ (if bandwidth_under 80 then some true else none))
  unfolding evaluate_participant default_policy_config apply_rules is_triggered
  default_policy_decides =
      outcome_lem (loss_above 8) (loss_above 15) (rtt_above 300) (bandwidth_under 80)
