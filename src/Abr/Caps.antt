-- ===== src/Abr/Caps.antt =====
-- What the caps of internal/abr/policy_engine.go come to: the most restrictive tier and the lowest
-- bitrate of a list.
use lalo_lao_alo.Base.{
  ℕ, ◌≤◌, ◌≡◌, Bool, true, false, ◌||◌, ◌⊎◌, List, [], ◌∷◌, ◌++◌, Option, none, some, ltb, contains,
  ◌==◌, Bool-cases, inl, inr, arith,
}
use lalo_lao_alo.Text.{text_eq, text_eq_self}
use lalo_lao_alo.Abr.{QualityTier}
use lalo_lao_alo.Abr.Rules.{tier_rank, capped_tier, lower_bitrate}

abbrev pub has_tier : QualityTier → List QualityTier → Bool
has_tier t [] = false
has_tier t (u ∷ us) = text_eq t u || has_tier t us

-- No tier of the list is more restrictive than the rank.
abbrev pub Within : ℕ → List QualityTier → Type 0
Within n [] = Unit {0}
Within n (t ∷ ts) = (tier_rank t ≤ n) × Within n ts

abbrev pub Strictest : List QualityTier → Option QualityTier → Type 0
Strictest ts none = ts ≡ []
Strictest ts (some t) = (has_tier t ts ≡ true) × Within (tier_rank t) ts

abbrev pub AtLeast : ℕ → List ℕ → Type 0
AtLeast n [] = Unit {0}
AtLeast n (k ∷ ks) = (n ≤ k) × AtLeast n ks

abbrev pub Lowest : List ℕ → Option ℕ → Type 0
Lowest ks none = ks ≡ []
Lowest ks (some k) = (contains ks k ≡ true) × AtLeast k ks

has_tier-snoc :
    (t u : QualityTier) (ts : List QualityTier)
    → has_tier t (ts ++ u ∷ []) ≡ has_tier t ts || text_eq t u
has_tier-snoc t u [] = ground arith
has_tier-snoc t u (v ∷ ts) = ground (arith, has_tier-snoc t u ts)

Within-snoc :
    (m n : ℕ) (t : QualityTier) (ts : List QualityTier)
    → m ≤ n
    → tier_rank t ≤ n
    → Within m ts
    → Within n (ts ++ t ∷ [])
Within-snoc m n t [] a b w = (b, tt)
Within-snoc m n t (u ∷ ts) a b (c, w) = (omega arith, Within-snoc m n t ts a b w)

pub capped_tier-Strictest :
    (ts : List QualityTier) (o : Option QualityTier) (t : QualityTier)
    → Strictest ts o
    → Strictest (ts ++ t ∷ []) (capped_tier o t)
capped_tier-Strictest ts none t e = rw e (ground (arith, text_eq_self t), (omega arith, tt))
capped_tier-Strictest ts (some u) t (h, w) = by_rank (Bool-cases (ltb (tier_rank u) (tier_rank t)))
  where
    by_rank :
        (ltb (tier_rank u) (tier_rank t) ≡ true) ⊎ (ltb (tier_rank u) (tier_rank t) ≡ false)
        → Strictest (ts ++ t ∷ []) (capped_tier (some u) t)
    by_rank (inl e) = rw e (
      ground (arith, has_tier-snoc t t ts, text_eq_self t),
      Within-snoc (tier_rank u) (tier_rank t) t ts (ground (arith, e)) (omega arith) w,
    )
    by_rank (inr e) = rw e (
      ground (arith, has_tier-snoc u t ts, h),
      Within-snoc (tier_rank u) (tier_rank u) t ts (omega arith) (ground (arith, e)) w,
    )

contains-snoc : (ks : List ℕ) (j k : ℕ) → contains (ks ++ j ∷ []) k ≡ contains ks k || j == k
contains-snoc [] j k = ground arith
contains-snoc (i ∷ ks) j k = ground (arith, contains-snoc ks j k)

AtLeast-snoc : (m n k : ℕ) (ks : List ℕ) → n ≤ m → n ≤ k → AtLeast m ks → AtLeast n (ks ++ k ∷ [])
AtLeast-snoc m n k [] a b w = (b, tt)
AtLeast-snoc m n k (j ∷ ks) a b (c, w) = (omega arith, AtLeast-snoc m n k ks a b w)

pub lower_bitrate-Lowest :
    (ks : List ℕ) (o : Option ℕ) (k : ℕ) → Lowest ks o → Lowest (ks ++ k ∷ []) (lower_bitrate o k)
lower_bitrate-Lowest ks none k e = rw e (ground arith, (omega arith, tt))
lower_bitrate-Lowest ks (some j) k (h, w) = by_order (Bool-cases (ltb k j))
  where
    by_order :
        (ltb k j ≡ true) ⊎ (ltb k j ≡ false) → Lowest (ks ++ k ∷ []) (lower_bitrate (some j) k)
    by_order (inl e) = rw e (
      ground (arith, contains-snoc ks k k),
      AtLeast-snoc j k k ks (ground (arith, e)) (omega arith) w,
    )
    by_order (inr e) = rw e (
      ground (arith, contains-snoc ks k j, h),
      AtLeast-snoc j j k ks (omega arith) (ground (arith, e)) w,
    )
