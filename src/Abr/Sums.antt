-- ===== src/Abr/Sums.antt =====
-- What the actions of rules of internal/abr/policy_engine.go add up to.
use lalo_lao_alo.Base.{
  ℕ, ◌≡◌, refl, ◌⊎◌, inl, inr, Bool, true, false, ◌||◌, List, [], ◌∷◌, ◌++◌, Option, none, some,
  ltb, Bool-cases, if◌then◌else◌,
}
use mathlib.Core.List.{append-nil}
use lalo_lao_alo.Text.{Text, text}
use lalo_lao_alo.Abr.{
  QualityTier, PolicyDecision, Action, cap_tier, force_audio, cap_bitrate, other_action, PolicyRule,
}
use lalo_lao_alo.Abr.Rules.{act, scan_int, append_reason, capped_bitrate}
use lalo_lao_alo.Abr.Reasons.{join, from_named, append_reason-join}
use lalo_lao_alo.Abr.Caps.{Strictest, Lowest, capped_tier-Strictest, lower_bitrate-Lowest}

abbrev pub tier_cap : Action → Text → List QualityTier
tier_cap cap_tier value = value ∷ []
tier_cap _ value = []

abbrev pub bitrate_cap : Action → Text → List ℕ
bitrate_cap cap_bitrate value = if ltb 0 (scan_int value) then scan_int value ∷ [] else []
bitrate_cap _ value = []

abbrev pub is_audio : Action → Bool
is_audio force_audio = true
is_audio _ = false

abbrev pub reason_of : Action → Text → List Text
reason_of other_action name = []
reason_of _ name = name ∷ []

module _ {F : Type 0} where
  abbrev pub tier_caps : List (PolicyRule F) → List QualityTier
  tier_caps [] = []
  tier_caps (r ∷ rs) = tier_cap r.action r.action_value ++ tier_caps rs

  abbrev pub bitrate_caps : List (PolicyRule F) → List ℕ
  bitrate_caps [] = []
  bitrate_caps (r ∷ rs) = bitrate_cap r.action r.action_value ++ bitrate_caps rs

  abbrev pub forces_audio : List (PolicyRule F) → Bool
  forces_audio [] = false
  forces_audio (r ∷ rs) = is_audio r.action || forces_audio rs

  abbrev pub names : List (PolicyRule F) → List Text
  names [] = []
  names (r ∷ rs) = reason_of r.action r.name ++ names rs

-- The decision that some caps, a demand for audio and some names add up to.
pub record Sums (tiers : List QualityTier) (rates : List ℕ) (audio : Bool) (reasons : List Text)
    (d : PolicyDecision) : Type 0 where
  pub tier : Strictest tiers d.max_tier
  pub bitrate : Lowest rates d.max_bitrate_kbps
  pub audio_only : d.force_audio_only ≡ (if audio then some true else none)
  pub codec : d.force_codec ≡ none
  pub reason : d.reason ≡ join (text "; ") (from_named reasons)

pub or_false : (b : Bool) → b || false ≡ b
or_false true = refl
or_false false = refl

pub or_true : (b : Bool) → b || true ≡ true
or_true true = refl
or_true false = refl

pub or_assoc : (a b c : Bool) → (a || b) || c ≡ a || (b || c)
or_assoc true b c = refl
or_assoc false b c = refl

capped_bitrate-Lowest :
    (ks : List ℕ) (o : Option ℕ) (k : ℕ)
    → Lowest ks o
    → Lowest (ks ++ (if ltb 0 k then k ∷ [] else [])) (capped_bitrate o k)
capped_bitrate-Lowest ks o k l = by_sign (Bool-cases (ltb 0 k))
  where
    by_sign :
        (ltb 0 k ≡ true) ⊎ (ltb 0 k ≡ false)
        → Lowest (ks ++ (if ltb 0 k then k ∷ [] else [])) (capped_bitrate o k)
    by_sign (inl e) = rw e (lower_bitrate-Lowest ks o k l)
    by_sign (inr e) = rw (e, append-nil ks) l

named :
    (ns : List Text) (d : PolicyDecision) (n : Text)
    → d.reason ≡ join (text "; ") (from_named ns)
    → append_reason d.reason n ≡ join (text "; ") (from_named (ns ++ n ∷ []))
named ns d n e = rw e (append_reason-join ns n)

pub act-Sums :
    (tiers : List QualityTier) (rates : List ℕ) (audio : Bool) (reasons : List Text)
    (d : PolicyDecision) (a : Action) (name value : Text)
    → Sums tiers rates audio reasons d
    → Sums
        (tiers ++ tier_cap a value)
        (rates ++ bitrate_cap a value)
        (audio || is_audio a)
        (reasons ++ reason_of a name)
        (act a name value d)
unfolding act
act-Sums tiers rates audio reasons d cap_tier name value s =
    rw (append-nil rates, or_false audio)
      (record {
        tier = capped_tier-Strictest tiers d.max_tier value s.tier;
        bitrate = s.bitrate;
        audio_only = s.audio_only;
        codec = s.codec;
        reason = named reasons d name s.reason;
      })
act-Sums tiers rates audio reasons d force_audio name value s =
    rw (append-nil rates, append-nil tiers, or_true audio)
      (record {
        tier = s.tier;
        bitrate = s.bitrate;
        audio_only = refl;
        codec = s.codec;
        reason = named reasons d name s.reason;
      })
act-Sums tiers rates audio reasons d cap_bitrate name value s =
    rw (append-nil tiers, or_false audio)
      (record {
        tier = s.tier;
        bitrate = capped_bitrate-Lowest rates d.max_bitrate_kbps (scan_int value) s.bitrate;
        audio_only = s.audio_only;
        codec = s.codec;
        reason = named reasons d name s.reason;
      })
act-Sums tiers rates audio reasons d other_action name value s =
    rw (append-nil rates, append-nil tiers, append-nil reasons, or_false audio) s
