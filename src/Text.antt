-- ===== src/Text.antt =====
-- Texts as lists of bytes, with the slices and comparisons that Go's strings have.
pub mod Strings
pub mod Decimal
use Prim.Native.Char.{code}
use Prim.Native.String.{String}
use lalo_lao_alo.Base.{
  ℕ, zero, suc, ◌≤◌, ◌≡◌, ◌↔◌, refl, ap, Bool, true, false, ◌&&◌, List, [], ◌∷◌, ◌++◌, Option, none,
  some, ◌==◌, drop, length, contains, arith,
}

abbrev pub Text : Type 0
Text = List ℕ

abbrev pub text : String → Text
text String.[] = []
text (String.◌∷◌ c s) = code c ∷ text s

-- The first `n` bytes; `s[:n]` where `n` is at most the length.
abbrev pub take : ℕ → Text → Text
take zero s = []
take (suc n) [] = []
take (suc n) (c ∷ s) = c ∷ take n s

-- Go's `==`.
abbrev pub text_eq : Text → Text → Bool
text_eq [] [] = true
text_eq [] (d ∷ t) = false
text_eq (c ∷ s) [] = false
text_eq (c ∷ s) (d ∷ t) = c == d && text_eq s t

pub text_eq_iff : (s t : Text) → (text_eq s t ≡ true) ↔ (s ≡ t)
text_eq_iff s t = (to s t, λ e. rw (← e) (self s))
  where
    to : (s t : Text) → text_eq s t ≡ true → s ≡ t
    to [] [] h = refl
    to [] (d ∷ t) h = cc
    to (c ∷ s) [] h = cc
    to (c ∷ s) (d ∷ t) h = ground (arith, to s t)

    self : (s : Text) → text_eq s s ≡ true
    self [] = refl
    self (c ∷ s) = ground (arith, self s)

pub text_eq_self : (s : Text) → text_eq s s ≡ true
text_eq_self s = (text_eq_iff s s).1 refl

pub take-append : (s t : Text) → take (length s) (s ++ t) ≡ s
take-append [] t = refl
take-append (c ∷ s) t = ap (λ r. c ∷ r) (take-append s t)

pub drop-append_length : (s t : Text) → drop (length s) (s ++ t) ≡ t
drop-append_length [] t = refl
drop-append_length (c ∷ s) t = drop-append_length s t

pub take-drop : (n : ℕ) (s : Text) → take n s ++ drop n s ≡ s
take-drop zero s = refl
take-drop (suc n) [] = refl
take-drop (suc n) (c ∷ s) = ap (λ r. c ∷ r) (take-drop n s)

pub length-take : (n : ℕ) (s : Text) → n ≤ length s → length (take n s) ≡ n
length-take zero s h = refl
length-take (suc n) [] h = absurd (omega arith)
length-take (suc n) (c ∷ s) h = omega (arith, length-take n s)

pub take-take : (m n : ℕ) (s : Text) → m ≤ n → take m (take n s) ≡ take m s
take-take zero n s h = refl
take-take (suc m) zero s h = absurd (omega arith)
take-take (suc m) (suc n) [] h = refl
take-take (suc m) (suc n) (c ∷ s) h = ap (λ r. c ∷ r) (take-take m n s (omega arith))

-- Appending on the left can be undone.
pub append_cancel : (s t u : Text) → s ++ t ≡ s ++ u → t ≡ u
append_cancel [] t u e = e
append_cancel (c ∷ s) t u e = append_cancel s t u (cc)

pub contains-append : (s t : Text) (c : ℕ) → contains t c ≡ true → contains (s ++ t) c ≡ true
contains-append [] t c h = h
contains-append (d ∷ s) t c h = ground (arith, contains-append s t c h)

-- The result of a call that may fail with a text.
pub data Try {ℓ} (A : Type ℓ) : Type ℓ where
  done : A → Try A
  error : Text → Try A

-- An error seen through `fmt.Errorf`.
abbrev pub under {ℓ} : {A : Type ℓ} → Text → Try A → Try A
under context (done a) = done a
under context (error e) = error (context ++ e)

abbrev pub refused_under : Text → Option Text → Option Text
refused_under context none = none
refused_under context (some e) = some (context ++ e)
