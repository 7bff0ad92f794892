-- ===== src/Text/Strings.antt =====
-- Functions of Go's package strings on texts.
use lalo_lao_alo.Base.{
  ℕ, ◌≡◌, refl, ap, ◌∙◌, Bool, true, false, ◌&&◌, ◌||◌, List, [], ◌∷◌, ◌++◌, ◌==◌, leb,
  if◌then◌else◌, is_empty, length, drop, contains, arith,
}
use lalo_lao_alo.Text.{Text, take, text_eq}

-- `strings.TrimPrefix`.
unfoldable pub trim_prefix : Text → Text → Text
trim_prefix prefix s = if text_eq (take (length prefix) s) prefix then drop (length prefix) s else s

abbrev pub extended : ℕ → List Text → List Text
extended c [] = (c ∷ []) ∷ []
extended c (s ∷ ss) = (c ∷ s) ∷ ss

-- `strings.Split` at one byte.
unfoldable pub split : ℕ → Text → List Text
split sep [] = [] ∷ []
split sep (c ∷ s) = let rest = split sep s in if c == sep then [] ∷ rest else extended c rest

-- White space, as far as it is ASCII.
abbrev pub is_space : ℕ → Bool
is_space c = c == b' ' || leb 9 c && leb c 13

unfoldable pub trim_left : Text → Text
trim_left [] = []
trim_left (c ∷ s) = let rest = trim_left s in if is_space c then rest else c ∷ s

unfoldable pub trim_right : Text → Text
trim_right [] = []
trim_right (c ∷ s) = let rest = trim_right s in if is_empty rest && is_space c then [] else c ∷ rest

-- `strings.TrimSpace`.
unfoldable pub trim_space : Text → Text
unfolding trim_left trim_right
trim_space s = trim_left (trim_right s)

abbrev pub all_space : Text → Bool
all_space [] = true
all_space (c ∷ s) = is_space c && all_space s

trim_right-space : (s : Text) → all_space s ≡ true → trim_right s ≡ []
unfolding trim_right
trim_right-space [] h = refl
trim_right-space (c ∷ s) h = ground (arith, trim_right-space s)

trim_right-append : (s t : Text) → all_space t ≡ true → trim_right (s ++ t) ≡ trim_right s
unfolding trim_right
trim_right-append [] t h = trim_right-space t h
trim_right-append (c ∷ s) t h = rw (trim_right-append s t h) refl

trim_space-append : (s t : Text) → all_space s ≡ true → trim_space (s ++ t) ≡ trim_space t
unfolding trim_space trim_left trim_right
trim_space-append [] t h = refl
trim_space-append (c ∷ s) t h = ground (arith, trim_space-append s t)

pub trim_space-around :
    (before id after : Text)
    → all_space before ≡ true
    → all_space after ≡ true
    → trim_space (before ++ (id ++ after)) ≡ trim_space id
unfolding trim_space
trim_space-around before id after h k =
    trim_space-append before (id ++ after) h ∙ ap trim_left (trim_right-append id after k)

split_whole : (c : ℕ) (s : Text) → contains s c ≡ false → split c s ≡ s ∷ []
unfolding split
split_whole c [] h = refl
split_whole c (d ∷ s) h = ground (arith, split_whole c s)

pub split_once :
    (c : ℕ) (s t : Text)
    → contains s c ≡ false
    → contains t c ≡ false
    → split c (s ++ c ∷ t) ≡ s ∷ t ∷ []
unfolding split
split_once c [] t h k = ground (arith, split_whole c t k)
split_once c (d ∷ s) t h k = ground (arith, split_once c s t)
