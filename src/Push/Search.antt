-- ===== src/Push/Search.antt =====
-- The search for a text in another: `contains` of internal/push/apns.go, and the attempts of
-- `sendWithRetry` of internal/push/gateway.go.
use lalo_lao_alo.Base.{
  ℕ, zero, suc, ◌==◌, ==_iff, ◌+◌, ◌-◌, ◌≤◌, ◌<◌, ◌≡◌, ◌≢◌, ◌↔◌, inl, inr, refl, sym, ap, true,
  ◌++◌, none, some, drop, length, length-append, Bool-cases, arith,
}
use lalo_lao_alo.Text.{
  Text, take, text_eq, text_eq_iff, text_eq_self, take-append, drop-append_length, take-drop,
}
use lalo_lao_alo.Push.Senders

search-finds :
    (s substr : Text) (n i : ℕ)
    → Senders.search_from s substr n i ≡ true
    → (k : ℕ) × (take (length substr) (drop k s) ≡ substr)
unfolding Senders.search_from
search-finds s substr zero i h = cc
search-finds s substr (suc n) i h =
    elim (Bool-cases (text_eq (take (length substr) (drop i s)) substr)) [
      | inl e ↦ (i, (text_eq_iff (take (length substr) (drop i s)) substr).0 e)
      | inr e ↦ search-finds s substr n (suc i) (ground (arith, e, h))
    ]

search-hits :
    (s substr : Text) (n i k : ℕ)
    → i ≤ k
    → k < i + n
    → take (length substr) (drop k s) ≡ substr
    → Senders.search_from s substr n i ≡ true
unfolding Senders.search_from
search-hits s substr zero i k a b h = absurd (omega arith)
search-hits s substr (suc n) i k a b h = elim (Bool-cases (i == k)) [
  | inl e ↦
      let here : text_eq (take (length substr) (drop i s)) substr ≡ true =
        rw ((==_iff i k).0 e, h) (text_eq_self substr) in
      ground (arith, here)
  | inr e ↦
      let later = search-hits s substr n (suc i) k (ground (arith, a, e)) (omega (arith, b)) h in
      ground (arith, later, Bool-cases (text_eq (take (length substr) (drop i s)) substr))
]

-- A text is found in another exactly if the other one is the text with something before it and
-- something after it.
pub contains_iff :
    (s substr : Text)
    → (Senders.contains s substr ≡ true) ↔ ((a : Text) × (b : Text) × (s ≡ a ++ (substr ++ b)))
unfolding Senders.contains
contains_iff s substr = (
  λ h. parts (search-finds s substr (suc (length s - length substr)) 0 (ground arith)),
  λ (a, b, e). whole a b e,
)
  where
    parts :
        (k : ℕ) × (take (length substr) (drop k s) ≡ substr)
        → (a : Text) × (b : Text) × (s ≡ a ++ (substr ++ b))
    parts (k, e) = (
      take k s,
      drop (length substr) (drop k s),
      rw (← ap (λ t. t ++ drop (length substr) (drop k s)) e)
          (rw (take-drop (length substr) (drop k s)) (sym (take-drop k s))),
    )

    whole : (a b : Text) → s ≡ a ++ (substr ++ b) → Senders.contains s substr ≡ true
    whole a b e =
        let l : length s ≡ length a + (length substr + length b) =
          rw e (omega (arith, length-append a (substr ++ b), length-append substr b)) in
        let hit =
          search-hits s substr (suc (length s - length substr)) 0 (length a) (omega arith)
            (omega arith) (rw (e, drop-append_length a (substr ++ b)) (take-append substr b)) in
        ground (arith, l, hit)

attempts :
    (send cancelled : Senders.Sender) (left a : ℕ)
    → (0 < a → send (a - 1) ≢ none)
    → let x = Senders.send_from send cancelled left a in
      (0 < x.0) × (a ≤ x.0) × (x.0 ≤ suc (a + left)) × ((x.1 ≡ none) ↔ (send (x.0 - 1) ≡ none))
unfolding Senders.send_from
attempts send cancelled zero a h = ground arith
attempts send cancelled (suc left) a h = ground (arith, attempts send cancelled left (suc a))

first_invalid :
    (send cancelled : Senders.Sender) (left : ℕ) (e : Text)
    → send 0 ≡ some e
    → Senders.is_invalid_token e ≡ true
    → Senders.send_from send cancelled left 0 ≡ (1, some e)
unfolding Senders.send_from
first_invalid send cancelled zero e h i = rw h refl
first_invalid send cancelled (suc left) e h i = rw (h, i) refl

-- The sender is called at least once, and at most once more than there are retries, and the delivery
-- is accepted exactly if the last call of the sender was.
pub retries_bounded :
    (send cancelled : Senders.Sender) (max_retries : ℕ)
    → let x = Senders.send_with_retry send cancelled max_retries in
      (0 < x.0) × (x.0 ≤ suc max_retries) × ((x.1 ≡ none) ↔ (send (x.0 - 1) ≡ none))
unfolding Senders.send_with_retry
retries_bounded send cancelled max_retries =
    let (a, b, c, d) = attempts send cancelled max_retries 0 (λ h. absurd (omega arith)) in
    (a, omega (arith, c), d)

-- An error of the first call that means that the token is invalid is returned without another call.
pub invalid_token_final :
    (send cancelled : Senders.Sender) (max_retries : ℕ) (e : Text)
    → send 0 ≡ some e
    → Senders.is_invalid_token e ≡ true
    → Senders.send_with_retry send cancelled max_retries ≡ (1, some e)
unfolding Senders.send_with_retry
invalid_token_final send cancelled max_retries e h i =
    first_invalid send cancelled max_retries e h i
