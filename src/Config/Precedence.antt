-- ===== src/Config/Precedence.antt =====
-- Which value a field of the configuration of internal/config/config.go gets in the end.
use lalo_lao_alo.Base.{
  ℕ, ◌≡◌, refl, Bool, true, false, ◌&&◌, not, List, [], ◌∷◌, Option, none, some, ◌==◌,
  if◌then◌else◌, is_empty, contains, arith,
}
use lalo_lao_alo.Text.{Text}
use lalo_lao_alo.Text.Strings.{split, extended, trim_space, trim_left, trim_right}
use lalo_lao_alo.Config.{
  TextField, Config, Environment, load, apply_defaults, apply_env_overrides, default_text,
  text_variable, text_from, text_or, split_csv, trimmed_parts,
}

-- The values of a field in the order of their precedence: the variable's, the file's, the default.
abbrev pub first_set : Text → Text → Text → Text
first_set a b c = if is_empty a then (if is_empty b then c else b) else a

abbrev pub variable_of : Environment → Option Text → Text
variable_of env none = []
variable_of env (some v) = env v

-- A text of the configuration is the one of its variable where that is set, else the one of the file
-- where that is not empty, else the default.
load-first_set :
    (env : Environment) (c : Config) (f : TextField)
    → (load env c).texts f
      ≡ first_set (variable_of env (text_variable f)) (c.texts f) (default_text f)
unfolding load apply_env_overrides apply_defaults
load-first_set env c f = by_variable (text_variable f)
  where
    by_variable :
        (v : Option Text)
        → text_from env v (text_or (default_text f) (c.texts f))
          ≡ first_set (variable_of env v) (c.texts f) (default_text f)
    by_variable none = refl
    by_variable (some v) = ground arith

-- No part has a comma.
abbrev pub none_has : ℕ → List Text → Bool
none_has c [] = true
none_has c (s ∷ ss) = not (contains s c) && none_has c ss

abbrev pub none_empty : List Text → Bool
none_empty [] = true
none_empty (s ∷ ss) = not (is_empty s) && none_empty ss

split-none_has : (c : ℕ) (s : Text) → none_has c (split c s) ≡ true
unfolding split
split-none_has c [] = refl
split-none_has c (d ∷ s) = by_rest (split c s) (split-none_has c s)
  where
    by_rest :
        (rest : List Text)
        → none_has c rest ≡ true
        → none_has c (if d == c then [] ∷ rest else extended d rest) ≡ true
    by_rest [] h = ground arith
    by_rest (t ∷ ts) h = ground (arith, h)

trim_left-contains : (c : ℕ) (s : Text) → contains s c ≡ false → contains (trim_left s) c ≡ false
unfolding trim_left
trim_left-contains c [] h = refl
trim_left-contains c (d ∷ s) h = ground (arith, trim_left-contains c s)

trim_right-contains : (c : ℕ) (s : Text) → contains s c ≡ false → contains (trim_right s) c ≡ false
unfolding trim_right
trim_right-contains c [] h = refl
trim_right-contains c (d ∷ s) h = ground (arith, trim_right-contains c s)

trim_space-contains : (c : ℕ) (s : Text) → contains s c ≡ false → contains (trim_space s) c ≡ false
unfolding trim_space
trim_space-contains c s h = trim_left-contains c (trim_right s) (trim_right-contains c s h)

trimmed_parts-clean :
    (c : ℕ) (ps : List Text)
    → none_has c ps ≡ true
    → (none_has c (trimmed_parts ps) ≡ true) × (none_empty (trimmed_parts ps) ≡ true)
unfolding trimmed_parts
trimmed_parts-clean c [] h = (refl, refl)
trimmed_parts-clean c (p ∷ ps) h = ground (arith, trimmed_parts-clean c ps, trim_space-contains c p)

-- Whatever the text, the list that `splitCSV` makes of it has no empty entry and none with a comma.
split_csv-clean :
    (s : Text) → (none_has b',' (split_csv s) ≡ true) × (none_empty (split_csv s) ≡ true)
unfolding split_csv
split_csv-clean s = trimmed_parts-clean b',' (split b',' s) (split-none_has b',' s)
