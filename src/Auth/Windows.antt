-- ===== src/Auth/Windows.antt =====
-- What the rate limiter of internal/auth/ratelimit.go counts.
use lalo_lao_alo.Base.{
  ℕ, ◌+◌, ◌-◌, ◌≤◌, ◌<◌, ◌≡◌, refl, sym, ap, ◌∙◌, true, false, ◌||◌, List, [], ◌∷◌, ◌++◌, ltb,
  length, contains, ◌==◌, if◌then◌else◌, arith,
}
use lalo_lao_alo.Common.{Time}
use lalo_lao_alo.Auth.Limits.{RateLimit, is_expired, remove_expired, added, allow, remaining}

-- The set after requests at these times, the last one first.
unfoldable pub after_requests : RateLimit → List Time → List Time
after_requests rl [] = []
after_requests rl (t ∷ ts) = (allow rl t (after_requests rl ts)).0

-- Times that fall, the last one first.
abbrev pub Falling : Time → List Time → Type 0
Falling now [] = Unit {0}
Falling now (t ∷ ts) = (t < now) × Falling t ts

-- How many of the times a window counts at `now`.
abbrev pub in_window : RateLimit → Time → List Time → ℕ
in_window rl now [] = 0
in_window rl now (t ∷ ts) = (if is_expired rl now t then 0 else 1) + in_window rl now ts

length-remove :
    (rl : RateLimit) (now : Time) (ts : List Time)
    → length (remove_expired rl now ts) ≡ in_window rl now ts
unfolding remove_expired
length-remove rl now [] = refl
length-remove rl now (t ∷ ts) = ground (arith, length-remove rl now ts)

in_window-snoc :
    (rl : RateLimit) (now t : Time) (ts : List Time)
    → in_window rl now (ts ++ t ∷ []) ≡ (if is_expired rl now t then 0 else 1) + in_window rl now ts
in_window-snoc rl now t [] = refl
in_window-snoc rl now t (x ∷ ts) = omega (arith, in_window-snoc rl now t ts)

-- What has been removed earlier would not be counted later.
in_window-remove :
    (rl : RateLimit) (before now : Time) (ts : List Time)
    → before ≤ now
    → in_window rl now (remove_expired rl before ts) ≡ in_window rl now ts
unfolding remove_expired
in_window-remove rl before now [] h = refl
in_window-remove rl before now (t ∷ ts) h = ground (arith, in_window-remove rl before now ts h)

contains-remove :
    (rl : RateLimit) (now x : Time) (ts : List Time)
    → contains (remove_expired rl now ts) x ≡ true
    → contains ts x ≡ true
unfolding remove_expired
contains-remove rl now x [] h = h
contains-remove rl now x (t ∷ ts) h = ground (arith, contains-remove rl now x ts)

contains-snoc :
    (x t : Time) (ts : List Time) → contains (ts ++ t ∷ []) x ≡ (t == x || contains ts x)
contains-snoc x t [] = refl
contains-snoc x t (y ∷ ts) = ground (arith, contains-snoc x t ts)

after_requests-cons :
    (rl : RateLimit) (t : Time) (ts : List Time)
    → after_requests rl (t ∷ ts) ≡ added t (remove_expired rl t (after_requests rl ts))
unfolding after_requests allow
after_requests-cons rl t ts = refl

contains-after :
    (rl : RateLimit) (x : Time) (ts : List Time)
    → contains (after_requests rl ts) x ≡ true
    → contains ts x ≡ true
contains-after rl x [] h = unfold after_requests in h
contains-after rl x (t ∷ ts) h =
    let kept = remove_expired rl t (after_requests rl ts) in
    let h' : contains (added t kept) x ≡ true =
      ap (λ set. contains set x) (sym (after_requests-cons rl t ts)) ∙ h in
    ground (
      arith,
      h',
      contains-snoc x t kept,
      contains-remove rl t x (after_requests rl ts),
      contains-after rl x ts,
    )

Falling-absent : (now : Time) (ts : List Time) → Falling now ts → contains ts now ≡ false
Falling-absent now ts f = below now now ts f (omega arith)
  where
    below : (now x : Time) (ts : List Time) → Falling now ts → now ≤ x → contains ts x ≡ false
    below now x [] f h = refl
    below now x (t ∷ ts) (a, f) h = ground (arith, below t x ts f (omega arith))

Falling-later : (t now : Time) (ts : List Time) → t ≤ now → Falling t ts → Falling now ts
Falling-later t now [] h f = tt
Falling-later t now (x ∷ ts) h (a, f) = (omega arith, f)

-- The set counts what the history has in the window.
counts_history :
    (rl : RateLimit) (now : Time) (ts : List Time)
    → Falling now ts
    → in_window rl now (after_requests rl ts) ≡ in_window rl now ts
counts_history rl now [] f = unfold after_requests in refl
counts_history rl now (t ∷ ts) (a, f) =
    let kept = remove_expired rl t (after_requests rl ts) in
    let absent : contains kept t ≡ false = ground (
      arith,
      contains-remove rl t t (after_requests rl ts),
      contains-after rl t ts,
      Falling-absent t ts f,
    ) in
    rw (after_requests-cons rl t ts, absent)
      (omega (
        arith,
        in_window-snoc rl now t kept,
        in_window-remove rl t now (after_requests rl ts) (omega arith),
        counts_history rl now ts (Falling-later t now ts (omega arith) f),
      ))

-- A request at `now`, after requests at earlier and pairwise different times, is allowed exactly if
-- fewer of them than the limit lie in the window; those that were refused count too. `Remaining`
-- says how many fewer.
pub allow_iff :
    (rl : RateLimit) (now : Time) (ts : List Time)
    → Falling now ts
    → ((allow rl now (after_requests rl ts)).1 ≡ ltb (in_window rl now ts) rl.limit)
      × (remaining rl now (after_requests rl ts) ≡ rl.limit - in_window rl now ts)
unfolding allow remaining
allow_iff rl now ts f =
    let e = length-remove rl now (after_requests rl ts) ∙ counts_history rl now ts f in
    (rw e refl, rw e refl)
