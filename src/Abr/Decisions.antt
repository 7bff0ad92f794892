-- ===== src/Abr/Decisions.antt =====
-- What a decision of `EvaluateParticipant` of internal/abr/policy_engine.go is in terms of the rules
-- that are triggered.
use lalo_lao_alo.Abr.Sums.{
  tier_cap, bitrate_cap, is_audio, reason_of, tier_caps, bitrate_caps, forces_audio, names, Sums,
  or_false, or_true, or_assoc, act-Sums,
}
use lalo_lao_alo.Base.{
  ℕ, ◌≡◌, ◌≢◌, refl, inl, inr, Bool, true, false, ◌||◌, not, is_empty, List, [], ◌∷◌, ◌++◌, Option,
  none, some, filter, Bool-cases, arith,
}
use mathlib.Core.List.{append_assoc, append-nil}
use lalo_lao_alo.Text.{Text}
use lalo_lao_alo.Abr.{Float, QualityTier, MetricSample, PolicyDecision, PolicyRule}
use lalo_lao_alo.Abr.Rules.{
  act, apply_rules, evaluate_participant, is_triggered, no_decision, matching,
}

-- What further rules add.
abbrev Extends :
    {F : Type 0}
    → List QualityTier
    → List ℕ
    → Bool
    → List Text
    → List (PolicyRule F)
    → PolicyDecision
    → Type 0
Extends tiers rates audio reasons rs d =
    Sums (tiers ++ tier_caps rs) (rates ++ bitrate_caps rs) (audio || forces_audio rs)
      (reasons ++ names rs) d

act-Extends :
    {F : Type 0} (tiers : List QualityTier) (rates : List ℕ) (audio : Bool) (reasons : List Text)
    (r : PolicyRule F) (rs : List (PolicyRule F)) (d : PolicyDecision)
    → Extends
        (tiers ++ tier_cap r.action r.action_value)
        (rates ++ bitrate_cap r.action r.action_value)
        (audio || is_audio r.action)
        (reasons ++ reason_of r.action r.name)
        rs
        d
    → Extends tiers rates audio reasons (r ∷ rs) d
act-Extends tiers rates audio reasons r rs d s =
    rw
      (
        ← append_assoc tiers (tier_cap r.action r.action_value) (tier_caps rs),
        ← append_assoc rates (bitrate_cap r.action r.action_value) (bitrate_caps rs),
        ← or_assoc audio (is_audio r.action) (forces_audio rs),
        ← append_assoc reasons (reason_of r.action r.name) (names rs),
      )
      s

module _ {F : Type 0} (triggered : PolicyRule F → Bool) where
  apply_rules-fires :
      (r : PolicyRule F) (rs : List (PolicyRule F)) (d : PolicyDecision) (matched : Bool)
      → triggered r ≡ true
      → apply_rules triggered (r ∷ rs) d matched
        ≡ apply_rules triggered rs (act r.action r.name r.action_value d) true
  unfolding apply_rules
  apply_rules-fires r rs d matched e = rw e refl

  apply_rules-passes :
      (r : PolicyRule F) (rs : List (PolicyRule F)) (d : PolicyDecision) (matched : Bool)
      → triggered r ≡ false
      → apply_rules triggered (r ∷ rs) d matched ≡ apply_rules triggered rs d matched
  unfolding apply_rules
  apply_rules-passes r rs d matched e = rw e refl

  apply_rules-Sums :
      (rs : List (PolicyRule F)) (tiers : List QualityTier) (rates : List ℕ) (audio : Bool)
      (reasons : List Text) (d : PolicyDecision) (matched : Bool)
      → Sums tiers rates audio reasons d
      → Extends tiers rates audio reasons
          (filter triggered rs)
          (apply_rules triggered rs d matched).0
  unfolding apply_rules
  apply_rules-Sums [] tiers rates audio reasons d matched s =
      rw (append-nil rates, append-nil tiers, append-nil reasons, or_false audio) s
  apply_rules-Sums (r ∷ rs) tiers rates audio reasons d matched s =
      elim (Bool-cases (triggered r)) [
        | inl e ↦
            rw (apply_rules-fires r rs d matched e, e)
              (act-Extends tiers rates audio reasons r (filter triggered rs) _ (
                apply_rules-Sums rs (tiers ++ tier_cap r.action r.action_value)
                  (rates ++ bitrate_cap r.action r.action_value) (audio || is_audio r.action)
                  (reasons ++ reason_of r.action r.name) (act r.action r.name r.action_value d) true
                  (act-Sums tiers rates audio reasons d r.action r.name r.action_value s)))
        | inr e ↦
            rw (apply_rules-passes r rs d matched e, e)
              (apply_rules-Sums rs tiers rates audio reasons d matched s)
      ]

  apply_rules-matched :
      (rs : List (PolicyRule F)) (d : PolicyDecision) (matched : Bool)
      → (apply_rules triggered rs d matched).1 ≡ (matched || not (is_empty (filter triggered rs)))
  unfolding apply_rules
  apply_rules-matched [] d matched = ground arith
  apply_rules-matched (r ∷ rs) d matched = elim (Bool-cases (triggered r)) [
    | inl e ↦
        rw (apply_rules-fires r rs d matched e, e, or_true matched)
          (apply_rules-matched rs (act r.action r.name r.action_value d) true)
    | inr e ↦ rw (apply_rules-passes r rs d matched e, e) (apply_rules-matched rs d matched)
  ]

-- What may come of the rules that are triggered.
abbrev pub Decided : {F : Type 0} → List (PolicyRule F) → Option PolicyDecision → Type 0
Decided fired none = fired ≡ []
Decided fired (some d) =
    (fired ≢ []) × Sums (tier_caps fired) (bitrate_caps fired) (forces_audio fired) (names fired) d

-- The decision for the samples `s ∷ ss` is what the rules that are triggered add up to. There is none
-- exactly if no rule is triggered. A decision has the most restrictive tier of their tier caps and
-- the lowest of their positive bitrate caps, each absent only where there is no such cap; it forces
-- audio only exactly if one of the rules does, forces no codec, and names the rules in their order,
-- from the first one on that has a name.
pub decision_refines :
    {F : Type 0} (float : Float F) (rules : List (PolicyRule F)) (s : MetricSample F)
    (ss : List (MetricSample F))
    → Decided
        (filter (is_triggered float (s ∷ ss)) rules)
        (evaluate_participant float rules (s ∷ ss))
unfolding evaluate_participant
decision_refines {F} float rules s ss =
    let tr = is_triggered float (s ∷ ss) in
    by_result (apply_rules tr rules no_decision false) (filter tr rules)
      (apply_rules-matched tr rules no_decision false)
      (apply_rules-Sums tr rules [] [] false [] no_decision false
        (record { tier = refl; bitrate = refl; audio_only = refl; codec = refl; reason = refl }))
  where
    by_result :
        (x : PolicyDecision × Bool) (fired : List (PolicyRule F))
        → x.1 ≡ (false || not (is_empty fired))
        → Sums (tier_caps fired) (bitrate_caps fired) (forces_audio fired) (names fired) x.0
        → Decided fired (matching x)
    by_result (d, false) [] m k = refl
    by_result (d, true) [] m k = cc
    by_result (d, false) (r ∷ rs) m k = cc
    by_result (d, true) (r ∷ rs) m k = (λ h. cc, k)
