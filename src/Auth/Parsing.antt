-- ===== src/Auth/Parsing.antt =====
-- The texts of rate limits: `ParseRateLimit` of internal/auth/ratelimit.go.
use lalo_lao_alo.Base.{
  ℕ, ◌+◌, ◌*◌, ◌<◌, ◌≡◌, refl, ap, ◌∙◌, Bool, true, false, ◌&&◌, ◌||◌, not, List, [], ◌∷◌, ◌++◌,
  Option, none, some, ◌==◌, ltb, is_empty, if◌then◌else◌, arith,
}
use lalo_lao_alo.Text.{Text, text, text_eq}
use lalo_lao_alo.Text.Decimal.{
  all_digits, digits, show, all_digits-show, digits-show_end, show-full,
}
use lalo_lao_alo.Auth.Limits.{RateLimit}

pub data SpecError : Type 0 where
  invalid_format invalid_count invalid_window : SpecError

pub data ParsedLimit : Type 0 where
  parsed : RateLimit → ParsedLimit
  refused : SpecError → ParsedLimit

-- `strings.SplitN(spec, "/", 2)`: what stands before and after the first slash, if there is one.
abbrev pub before_slash : ℕ → Option (Text × Text) → Option (Text × Text)
before_slash c none = none
before_slash c (some (a, b)) = some (c ∷ a, b)

unfoldable pub split_slash : Text → Option (Text × Text)
split_slash [] = none
split_slash (c ∷ s) =
    let rest = split_slash s in if c == b'/' then some ([], s) else before_slash c rest

-- `strconv.Atoi` as far as the limit depends on it: a negative number allows nothing, as 0 does.
abbrev pub magnitude : ℕ → Text → Option ℕ
magnitude bound s =
    if not (is_empty s) && all_digits s && ltb (digits 0 s) bound then some (digits 0 s) else none

abbrev pub to_zero : Option ℕ → Option ℕ
to_zero none = none
to_zero (some n) = some 0

abbrev pub max_int : ℕ
max_int = 9223372036854775807

unfoldable pub atoi : Text → Option ℕ
atoi [] = none
atoi (c ∷ s) =
    if c == b'-'
    then to_zero (magnitude (max_int + 2) s)
    else if c == b'+'
    then magnitude (max_int + 1) s
    else magnitude (max_int + 1) (c ∷ s)

abbrev pub is_one_of : Text → List Text → Bool
is_one_of s [] = false
is_one_of s (t ∷ ts) = text_eq s t || is_one_of s ts

-- The window in nanoseconds.
unfoldable pub window_of : Text → Option ℕ
window_of unit =
    if is_one_of unit (text "s" ∷ text "sec" ∷ text "second" ∷ [])
    then some 1000000000
    else if is_one_of unit (text "m" ∷ text "min" ∷ text "minute" ∷ [])
    then some (60 * 1000000000)
    else if is_one_of unit (text "h" ∷ text "hr" ∷ text "hour" ∷ [])
    then some (3600 * 1000000000)
    else none

abbrev pub with_window : ℕ → Option ℕ → ParsedLimit
with_window limit none = refused invalid_window
with_window limit (some w) = parsed (record { limit = limit; window = w })

abbrev pub counted : Option ℕ → Text → ParsedLimit
counted none unit = refused invalid_count
counted (some limit) unit = with_window limit (window_of unit)

abbrev pub parts : Option (Text × Text) → ParsedLimit
parts none = refused invalid_format
parts (some (count, unit)) = counted (atoi count) unit

-- The key is left to the caller.
unfoldable pub parse_rate_limit : Text → ParsedLimit
parse_rate_limit spec = parts (split_slash spec)

split_slash-digits : (s t : Text) → all_digits s ≡ true → split_slash (s ++ b'/' ∷ t) ≡ some (s, t)
unfolding split_slash
split_slash-digits [] t h = refl
split_slash-digits (c ∷ s) t h = ground (arith, split_slash-digits s t)

atoi-digits :
    (c : ℕ) (s : Text)
    → all_digits (c ∷ s) ≡ true
    → digits 0 (c ∷ s) < max_int + 1
    → atoi (c ∷ s) ≡ some (digits 0 (c ∷ s))
unfolding atoi
atoi-digits c s h l = ground arith

atoi-show : (n : ℕ) → n < max_int + 1 → atoi (show n) ≡ some n
atoi-show n l = by_text (show n) (all_digits-show n) (digits-show_end n) (show-full n)
  where
    by_text :
        (s : Text) → all_digits s ≡ true → digits 0 s ≡ n → is_empty s ≡ false → atoi s ≡ some n
    by_text [] h e ne = cc
    by_text (c ∷ s) h e ne = atoi-digits c s h (omega (arith, e)) ∙ ap some e

-- A limit that is written in decimal, a slash, and a unit: within the range of an `int` it is parsed
-- as that limit, with the window of the unit, and refused only where the unit is unknown.
pub parse_written :
    (n : ℕ) (unit : Text)
    → n < max_int + 1
    → parse_rate_limit (show n ++ b'/' ∷ unit) ≡ with_window n (window_of unit)
unfolding parse_rate_limit
parse_written n unit l = rw (split_slash-digits (show n) unit (all_digits-show n), atoi-show n l)
