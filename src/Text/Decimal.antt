-- ===== src/Text/Decimal.antt =====
-- Numbers in decimal, as `fmt.Sprintf("%d", n)` of Go writes them.
use lalo_lao_alo.Base.{
  ℕ, zero, suc, ◌+◌, ◌-◌, ◌*◌, ◌/◌, ◌%◌, ◌<◌, ◌≡◌, refl, ap, ◌∙◌, Bool, true, false, ◌&&◌, [], ◌∷◌,
  ◌++◌, leb, ltb, if◌then◌else◌, Bool-cases, inl, inr, arith, is_empty,
}
use lalo_lao_alo.Text.{Text}

-- The digits of `n` before those in `rest`, the last one first. As many rounds as `n + 1` are enough.
unfoldable pub show_before : ℕ → ℕ → Text → Text
show_before zero n rest = rest
show_before (suc f) n rest =
    let more = show_before f (n / 10) ((48 + n % 10) ∷ rest) in
    if ltb n 10 then (48 + n) ∷ rest else more

unfoldable pub show : ℕ → Text
show n = show_before (suc n) n []

-- The number that the digits at the start of a text stand for, after those whose number is `n`.
abbrev pub is_digit : ℕ → Bool
is_digit c = leb b'0' c && leb c b'9'

unfoldable pub digits : ℕ → Text → ℕ
digits n [] = n
digits n (c ∷ s) = let rest = digits (n * 10 + (c - b'0')) s in if is_digit c then rest else n

show_before-append :
    (f n : ℕ) (s t : Text) → n < f → show_before f n s ++ t ≡ show_before f n (s ++ t)
unfolding show_before
show_before-append zero n s t h = absurd (omega arith)
show_before-append (suc f) n s t h = elim (Bool-cases (ltb n 10)) [
  | inl e ↦ rw e
  | inr e ↦ rw e (show_before-append f (n / 10) ((48 + n % 10) ∷ s) t (ground (arith, e)))
]

digits-digit : (n d : ℕ) (s : Text) → d < 10 → digits n ((48 + d) ∷ s) ≡ digits (n * 10 + d) s
unfolding digits
digits-digit n d s h =
    let digit : is_digit (48 + d) ≡ true = ground arith in
    let v : n * 10 + (48 + d - 48) ≡ n * 10 + d = omega arith in rw (digit, v)

digits-show_before : (f n : ℕ) (s : Text) → n < f → digits 0 (show_before f n s) ≡ digits n s
unfolding show_before
digits-show_before zero n s h = absurd (omega arith)
digits-show_before (suc f) n s h = elim (Bool-cases (ltb n 10)) [
  | inl e ↦ rw e (digits-digit 0 n s (ground (arith, e)) ∙ ap (λ k. digits k s) (omega arith))
  | inr e ↦ rw e (
      digits-show_before f (n / 10) ((48 + n % 10) ∷ s) (ground (arith, e))
      ∙ digits-digit (n / 10) (n % 10) s (omega arith)
      ∙ ap (λ k. digits k s) (omega arith))
]

-- A number that is written before a text with no digit at its start is read again.
pub digits-show : (n c : ℕ) (s : Text) → is_digit c ≡ false → digits 0 (show n ++ c ∷ s) ≡ n
unfolding show digits
digits-show n c s h =
    rw (show_before-append (suc n) n [] (c ∷ s) (omega arith))
      (digits-show_before (suc n) n (c ∷ s) (omega arith) ∙ rw h)

pub digits-show_end : (n : ℕ) → digits 0 (show n) ≡ n
unfolding show digits
digits-show_end n = digits-show_before (suc n) n [] (omega arith)

-- Every byte of a text is a digit.
abbrev pub all_digits : Text → Bool
all_digits [] = true
all_digits (c ∷ s) = is_digit c && all_digits s

all_digits-show_before :
    (f n : ℕ) (s : Text) → all_digits s ≡ true → all_digits (show_before f n s) ≡ true
unfolding show_before
all_digits-show_before zero n s h = h
all_digits-show_before (suc f) n s h =
    let digit : is_digit (48 + n % 10) ≡ true = ground arith in
    ground (arith, all_digits-show_before f (n / 10) ((48 + n % 10) ∷ s))

pub all_digits-show : (n : ℕ) → all_digits (show n) ≡ true
unfolding show
all_digits-show n = all_digits-show_before (suc n) n [] refl

show_before-full : (f n c : ℕ) (s : Text) → is_empty (show_before f n (c ∷ s)) ≡ false
unfolding show_before
show_before-full zero n c s = refl
show_before-full (suc f) n c s = ground (arith, show_before-full f (n / 10) (48 + n % 10) (c ∷ s))

pub show-full : (n : ℕ) → is_empty (show n) ≡ false
unfolding show show_before
show-full n = ground (arith, show_before-full n (n / 10) (48 + n % 10) [])
