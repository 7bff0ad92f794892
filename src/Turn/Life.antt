-- ===== src/Turn/Life.antt =====
-- The life of the health checker of internal/turn/health.go: starts, stops, ticks, and the checks that
-- are under way. The checks of a round run at the same time, and each writes its status when its dial
-- has returned, in any order and also after `Stop`, which waits for nothing.
use lalo_lao_alo.Base.{
  ℕ, zero, suc, ◌≡◌, refl, ◌∙◌, Bool, true, false, not, ◌&&◌, List, [], ◌∷◌, Option, none, some,
  if◌then◌else◌, is_empty, arith,
}
use lalo_lao_alo.Text.{Text, text_eq}
use lalo_lao_alo.Turn.{
  HealthChecker, Dial, find_status, new_health_checker, parse_addr, check, is_healthy,
}
use lalo_lao_alo.Turn.Health.{
  is_listed, answers, is_known, known-first, check_lem, nowhere, first-unhealthy,
}

-- A goroutine of `Start`, with the round that `Start` itself makes before it: `pending` are the
-- servers whose check in its round has not written yet.
pub record Loop : Type 0 where
  pub cancelled : Bool
  pub pending : List Text
  pub ended : Bool

-- The loops, the last start first: it is the one that the field `cancel` cancels. The context that a
-- start is given outlives the checker.
pub record Checking : Type 0 where
  pub checker : HealthChecker
  pub loops : List Loop

unfoldable pub not_started : HealthChecker → Checking
not_started h = record { checker = h; loops = [] }

unfoldable pub start : Checking → Checking
start c = record c {
  loops = record { cancelled = false; pending = c.checker.servers; ended = false } ∷ c.loops;
}

abbrev pub cancelled_first : List Loop → List Loop
cancelled_first [] = []
cancelled_first (l ∷ ls) = record l { cancelled = true } ∷ ls

unfoldable pub stop : Checking → Checking
stop c = record c { loops = cancelled_first c.loops }

-- A change of the `n`-th loop.
unfoldable pub at_loop : (Loop → Loop) → ℕ → List Loop → List Loop
at_loop f n [] = []
at_loop f zero (l ∷ ls) = f l ∷ ls
at_loop f (suc n) (l ∷ ls) = l ∷ at_loop f n ls

-- The `select` of a loop takes a tick, also where the context has ended: the checks of `checkAll`
-- begin. It waits for all of a round.
abbrev pub begun : List Text → Loop → Loop
begun servers l = if is_empty l.pending && not l.ended then record l { pending = servers } else l

unfoldable pub tick : ℕ → Checking → Checking
unfolding at_loop
tick n c = record c { loops = at_loop (begun c.checker.servers) n c.loops }

-- The `select` of a loop takes the end of the context.
abbrev pub returned : Loop → Loop
returned l = if l.cancelled && is_empty l.pending then record l { ended = true } else l

unfoldable pub loop_return : ℕ → Checking → Checking
unfolding at_loop
loop_return n c = record c { loops = at_loop returned n c.loops }

-- The server whose check is the `k`-th of those that the `n`-th loop waits for.
abbrev pub nth_of : ℕ → List Text → Option Text
nth_of k [] = none
nth_of zero (u ∷ us) = some u
nth_of (suc k) (u ∷ us) = nth_of k us

abbrev pub without : ℕ → List Text → List Text
without k [] = []
without zero (u ∷ us) = us
without (suc k) (u ∷ us) = u ∷ without k us

unfoldable pub pending_at : ℕ → ℕ → List Loop → Option Text
pending_at n k [] = none
pending_at zero k (l ∷ ls) = nth_of k l.pending
pending_at (suc n) k (l ∷ ls) = pending_at n k ls

-- That check writes its status.
abbrev pub wrote : Dial → Option Text → HealthChecker → HealthChecker
wrote d none h = h
wrote d (some u) h = record h { statuses = check d u h.statuses }

unfoldable pub finish : Dial → ℕ → ℕ → Checking → Checking
unfolding at_loop pending_at
finish d n k c = record {
  checker = wrote d (pending_at n k c.loops) c.checker;
  loops = at_loop (λ l. record l { pending = without k l.pending }) n c.loops;
}

pub data Step : Type 0 where
  starts stops : Step
  ticks returns : ℕ → Step
  finishes : Dial → ℕ → ℕ → Step

unfoldable pub step : Step → Checking → Checking
unfolding start stop tick loop_return finish
step starts c = start c
step stops c = stop c
step (ticks n) c = tick n c
step (returns n) c = loop_return n c
step (finishes d n k) c = finish d n k c

unfoldable pub run : List Step → Checking → Checking
unfolding step
run [] c = c
run (s ∷ ss) c = run ss (step s c)

-- The check that a step ends, if it ends one.
abbrev pub check_of : Step → Checking → Option Text
check_of (finishes d n k) c = pending_at n k c.loops
check_of s c = none

abbrev pub dial_of : Step → Text → Option Text
dial_of (finishes d n k) a = d.error a
dial_of s a = none

-- What the last check of an address that has ended found, where `before` is what was known.
abbrev pub found : Text → Option Text → Bool → Bool → Bool
found v none accepted before = before
found v (some u) accepted before = if text_eq u v then accepted else before

unfoldable pub last_found : Text → List Step → Checking → Bool → Bool
last_found v [] c before = before
last_found v (s ∷ ss) c before =
    last_found v ss (step s c) (found v (check_of s c) (answers (dial_of s (parse_addr v))) before)

-- The statuses are those of the configured servers.
abbrev Knows : List Text → HealthChecker → Type 0
Knows uris h = (v : Text) → is_known (find_status h.statuses v) ≡ is_listed v uris

module _ (uris : List Text) (v : Text) where
  wrote_lem :
      (d : Dial) (o : Option Text) (h : HealthChecker) (b : Bool)
      → Knows uris h
      → is_healthy h v ≡ is_listed v uris && b
      → (is_healthy (wrote d o h) v
          ≡ is_listed v uris && found v o (answers (d.error (parse_addr v))) b)
        × Knows uris (wrote d o h)
  unfolding is_healthy
  wrote_lem d none h b k e = (e, k)
  wrote_lem d (some u) h b k e = (
    ground (arith, check_lem d u v h.statuses, k v, e),
    λ w. (check_lem d u w h.statuses).1 ∙ k w,
  )

  step_lem :
      (s : Step) (c : Checking) (b : Bool)
      → Knows uris c.checker
      → is_healthy c.checker v ≡ is_listed v uris && b
      → (is_healthy (step s c).checker v
          ≡ is_listed v uris && found v (check_of s c) (answers (dial_of s (parse_addr v))) b)
        × Knows uris (step s c).checker
  unfolding step
  step_lem starts c b k e = (e, k)
  step_lem stops c b k e = (e, k)
  step_lem (ticks n) c b k e = (e, k)
  step_lem (returns n) c b k e = (e, k)
  step_lem (finishes d n i) c b k e = wrote_lem d (pending_at n i c.loops) c.checker b k e

  run_lem :
      (ss : List Step) (c : Checking) (b : Bool)
      → Knows uris c.checker
      → is_healthy c.checker v ≡ is_listed v uris && b
      → is_healthy (run ss c).checker v ≡ is_listed v uris && last_found v ss c b
  unfolding run last_found
  run_lem [] c b k e = e
  run_lem (s ∷ ss) c b k e =
      let one = step_lem s c b k e in
      run_lem ss (step s c) (found v (check_of s c) (answers (dial_of s (parse_addr v))) b) one.1
        one.0

-- A new checker is started and stopped, any number of times, while its loops tick, their checks end
-- and they return, in any order: an address is healthy exactly if it is one of the configured servers
-- and of the checks of it that have ended, the last one found that the connection to its host and
-- port is accepted.
pub healthy_as_last_found :
    (uris : List Text) (interval timeout : ℕ) (v : Text) (ss : List Step)
    → let c = not_started (new_health_checker uris interval timeout) in
      is_healthy (run ss c).checker v ≡ is_listed v uris && last_found v ss c false
unfolding not_started new_health_checker is_healthy
healthy_as_last_found uris interval timeout v ss =
    run_lem uris v ss (not_started (new_health_checker uris interval timeout)) false
      (λ w. ground (arith, known-first uris [] w, nowhere w))
      (ground (arith, first-unhealthy uris [] v, nowhere v))

abbrev pub all_ended : List Loop → Bool
all_ended [] = true
all_ended (l ∷ ls) = (l.ended && is_empty l.pending) && all_ended ls

abbrev pub never_starts : List Step → Bool
never_starts [] = true
never_starts (starts ∷ ss) = false
never_starts (s ∷ ss) = never_starts ss

-- Loops that have ended have no check left, and none of their steps changes that.
ended-pending : (n k : ℕ) (ls : List Loop) → all_ended ls ≡ true → pending_at n k ls ≡ none
unfolding pending_at
ended-pending n k [] e = refl
ended-pending zero k (l ∷ ls) e = none_left l.pending (ground (arith, e))
  where
    none_left : (us : List Text) → is_empty us ≡ true → nth_of k us ≡ none
    none_left [] h = refl
    none_left (u ∷ us) h = cc
ended-pending (suc n) k (l ∷ ls) e = ended-pending n k ls (ground (arith, e))

ended-at_loop :
    (f : Loop → Loop) (n : ℕ) (ls : List Loop)
    → ((l : Loop)
        → (l.ended && is_empty l.pending) ≡ true
        → ((f l).ended && is_empty (f l).pending) ≡ true)
    → all_ended ls ≡ true
    → all_ended (at_loop f n ls) ≡ true
unfolding at_loop
ended-at_loop f n [] k e = refl
ended-at_loop f zero (l ∷ ls) k e = ground (arith, e, k l)
ended-at_loop f (suc n) (l ∷ ls) k e = ground (arith, e, ended-at_loop f n ls k)

step-ended :
    (s : Step) (c : Checking)
    → never_starts (s ∷ []) ≡ true
    → all_ended c.loops ≡ true
    → ((step s c).checker ≡ c.checker) × (all_ended (step s c).loops ≡ true)
unfolding step
step-ended starts c n e = cc
step-ended stops c n e = (refl, first c.loops e)
  where
    first : (ls : List Loop) → all_ended ls ≡ true → all_ended (cancelled_first ls) ≡ true
    first [] h = refl
    first (l ∷ ls) h = h
step-ended (ticks i) c n e =
    (refl, ended-at_loop (begun c.checker.servers) i c.loops (λ l h. ground (arith, h)) e)
step-ended (returns i) c n e = (refl, ended-at_loop returned i c.loops (λ l h. ground (arith, h)) e)
step-ended (finishes d i k) c n e = (
  rw (ended-pending i k c.loops e) refl,
  ended-at_loop (λ l. record l { pending = without k l.pending }) i c.loops
      (λ l h. left l.ended l.pending h) e,
)
  where
    left :
        (b : Bool) (us : List Text)
        → (b && is_empty us) ≡ true
        → (b && is_empty (without k us)) ≡ true
    left b [] h = h
    left b (u ∷ us) h = ground (arith, h)

-- Once all loops have returned, nothing but another start changes a status.
ended_still :
    (ss : List Step) (c : Checking)
    → never_starts ss ≡ true
    → all_ended c.loops ≡ true
    → (run ss c).checker ≡ c.checker
unfolding run
ended_still [] c n e = refl
ended_still (s ∷ ss) c n e =
    let one = step-ended s c (head s n) e in ended_still ss (step s c) (tail s n) one.1 ∙ one.0
  where
    head : (s : Step) → never_starts (s ∷ ss) ≡ true → never_starts (s ∷ []) ≡ true
    head starts h = cc
    head stops h = refl
    head (ticks i) h = refl
    head (returns i) h = refl
    head (finishes d i k) h = refl

    tail : (s : Step) → never_starts (s ∷ ss) ≡ true → never_starts ss ≡ true
    tail starts h = cc
    tail stops h = h
    tail (ticks i) h = h
    tail (returns i) h = h
    tail (finishes d i k) h = h
