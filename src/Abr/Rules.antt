-- ===== src/Abr/Rules.antt =====
-- The evaluation of the rules: `EvaluateParticipant` of internal/abr/policy_engine.go.
use lalo_lao_alo.Base.{
  ℕ, Bool, true, false, ◌&&◌, ◌||◌, List, [], ◌∷◌, ◌++◌, Option, none, some, ltb, ◌==◌,
  if◌then◌else◌, length, is_empty,
}
use lalo_lao_alo.Text.{Text, text, text_eq}
use lalo_lao_alo.Text.Decimal.{digits}
use lalo_lao_alo.Abr.{
  Float, QualityTier, MetricSample, PolicyDecision, Condition, avg_loss_above, avg_rtt_above,
  bandwidth_below, other_condition, Action, cap_tier, force_audio, cap_bitrate, other_action,
  PolicyRule,
}

unfoldable pub tier_rank : QualityTier → ℕ
tier_rank t = if text_eq t (text "fair") then 1 else if text_eq t (text "poor") then 2 else 0

unfoldable pub append_reason : Text → Text → Text
append_reason existing rule = if is_empty existing then rule else existing ++ text "; " ++ rule

-- The blanks that `Sscanf` skips, as far as they are ASCII.
abbrev pub is_blank : ℕ → Bool
is_blank c = c == b' ' || c == 9 || c == 11 || c == 12 || c == 13

unfoldable pub after_spaces : Text → Text
after_spaces [] = []
after_spaces (c ∷ s) = let rest = after_spaces s in if is_blank c then rest else c ∷ s

abbrev unsigned : Text → Text
unsigned [] = []
unsigned (c ∷ s) = if c == b'+' then s else c ∷ s

-- `fmt.Sscanf(value, "%d", &kbps)` as far as a positive number comes of it: a text that has none,
-- a negative number and one above the largest `int` leave 0.
unfoldable pub scan_int : Text → ℕ
unfolding digits after_spaces
scan_int value =
    let n = digits 0 (unsigned (after_spaces value)) in if ltb n 9223372036854775808 then n else 0

-- "Keep the most restrictive tier cap."
abbrev pub capped_tier : Option QualityTier → QualityTier → Option QualityTier
capped_tier none tier = some tier
capped_tier (some t) tier = if ltb (tier_rank t) (tier_rank tier) then some tier else some t

abbrev pub lower_bitrate : Option ℕ → ℕ → Option ℕ
lower_bitrate none kbps = some kbps
lower_bitrate (some k) kbps = if ltb kbps k then some kbps else some k

abbrev pub capped_bitrate : Option ℕ → ℕ → Option ℕ
capped_bitrate o kbps = if ltb 0 kbps then lower_bitrate o kbps else o

abbrev pub no_decision : PolicyDecision
no_decision = record {
  max_tier = none;
  force_audio_only = none;
  max_bitrate_kbps = none;
  force_codec = none;
  reason = [];
}

-- The `switch` on the action of a rule that is triggered.
unfoldable pub act : Action → Text → Text → PolicyDecision → PolicyDecision
act cap_tier name value d = record d {
  max_tier = capped_tier d.max_tier value;
  reason = append_reason d.reason name;
}
act force_audio name value d = record d {
  force_audio_only = some true;
  reason = append_reason d.reason name;
}
act cap_bitrate name value d = record d {
  max_bitrate_kbps = capped_bitrate d.max_bitrate_kbps (scan_int value);
  reason = append_reason d.reason name;
}
act other_action name value d = d

module _ {F : Type 0} where
  -- The loop over the rules, with `decision` and `matched`.
  unfoldable pub apply_rules :
      (PolicyRule F → Bool) → List (PolicyRule F) → PolicyDecision → Bool → PolicyDecision × Bool
  apply_rules triggered [] d matched = (d, matched)
  apply_rules triggered (r ∷ rs) d matched =
      let fires = triggered r in
      apply_rules triggered rs (if fires then act r.action r.name r.action_value d else d)
        (if fires then true else matched)

  unfoldable pub total : Float F → (MetricSample F → F) → F → List (MetricSample F) → F
  total float field sum [] = sum
  total float field sum (s ∷ ss) = total float field (float.add sum (field s)) ss

  unfoldable pub average : Float F → (MetricSample F → F) → List (MetricSample F) → F
  average float field ss = float.div (total float field float.nought ss) (float.of_int (length ss))

  abbrev pub holds : Float F → List (MetricSample F) → Condition → F → Bool
  holds float ss avg_loss_above threshold =
      float.less threshold (average float (λ s. s.loss_percent) ss)
  holds float ss avg_rtt_above threshold = float.less threshold (average float (λ s. s.rtt_ms) ss)
  holds float ss bandwidth_below threshold =
      float.less float.nought (average float (λ s. s.bandwidth_kbps) ss)
      && float.less (average float (λ s. s.bandwidth_kbps) ss) threshold
  holds float ss other_condition threshold = false

  unfoldable pub is_triggered : Float F → List (MetricSample F) → PolicyRule F → Bool
  is_triggered float ss r = holds float ss r.condition r.threshold

abbrev pub matching : PolicyDecision × Bool → Option PolicyDecision
matching (d, true) = some d
matching (d, false) = none

unfoldable pub evaluate_participant :
    {F : Type 0} → Float F → List (PolicyRule F) → List (MetricSample F) → Option PolicyDecision
evaluate_participant float rules [] = none
evaluate_participant float rules (s ∷ ss) =
    matching (apply_rules (is_triggered float (s ∷ ss)) rules no_decision false)
