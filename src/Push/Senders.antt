-- ===== src/Push/Senders.antt =====
-- The errors of the senders, and the retries: internal/push/apns.go, fcm.go and gateway.go. What a
-- sender answers, and whether the context is cancelled during a wait, comes from the outside: both
-- depend on the number of the attempt.
use lalo_lao_alo.Base.{
  ℕ, zero, suc, ◌-◌, Bool, false, ◌&&◌, ◌||◌, Option, none, some, leb, ltb, drop, length,
  if◌then◌else◌,
}
use lalo_lao_alo.Text.{Text, text, take, text_eq}

-- The loop of `searchSubstring` from the position `i` on, with `n` positions to go.
unfoldable pub search_from : Text → Text → ℕ → ℕ → Bool
search_from s substr zero i = false
search_from s substr (suc n) i =
    text_eq (take (length substr) (drop i s)) substr || search_from s substr n (suc i)

unfoldable pub contains : Text → Text → Bool
contains s substr =
    leb (length substr) (length s) && search_from s substr (suc (length s - length substr)) 0

unfoldable pub is_gone_error : Text → Bool
is_gone_error e = contains e (text "410 Gone")

unfoldable pub is_unregistered_error : Text → Bool
is_unregistered_error e =
    contains e (text "NotRegistered") || contains e (text "InvalidRegistration")

abbrev pub is_invalid_token : Text → Bool
is_invalid_token e = is_gone_error e || is_unregistered_error e

-- `none` for an attempt that is accepted.
abbrev pub Sender : Type 0
Sender = ℕ → Option Text

-- The number of calls of the sender, and the error that is returned.
abbrev pub attempted : ℕ → Option Text → (ℕ × Option Text) → ℕ → ℕ × Option Text
attempted attempt none rest left = (suc attempt, none)
attempted attempt (some e) rest zero = (suc attempt, some e)
attempted attempt (some e) rest (suc left) =
    if is_invalid_token e then (suc attempt, some e) else rest

abbrev pub unless_cancelled : Option Text → ℕ → ℕ × Option Text → ℕ × Option Text
unless_cancelled none attempt x = x
unless_cancelled (some e) attempt x = (attempt, some e)

-- The loop from `attempt` on, with `left` more attempts after this one.
unfoldable pub send_from : Sender → Sender → ℕ → ℕ → ℕ × Option Text
send_from send cancelled zero attempt =
    unless_cancelled (if ltb 0 attempt then cancelled attempt else none) attempt
      (attempted attempt (send attempt) (attempt, none) zero)
send_from send cancelled (suc left) attempt =
    let rest = send_from send cancelled left (suc attempt) in
    unless_cancelled (if ltb 0 attempt then cancelled attempt else none) attempt
      (attempted attempt (send attempt) rest (suc left))

unfoldable pub send_with_retry : Sender → Sender → ℕ → ℕ × Option Text
send_with_retry send cancelled max_retries = send_from send cancelled max_retries 0
