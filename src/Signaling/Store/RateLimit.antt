-- ===== src/Signaling/Store/RateLimit.antt =====
-- Repeated calls of `CheckRateLimit` of internal/signaling/session.go within its window.
use lalo_lao_alo.Base.{ℕ, zero, suc, ◌+◌, false, ltb, ◌≡◌, arith}
use lalo_lao_alo.Common.{ok}
use lalo_lao_alo.Redis.{Redis}
use lalo_lao_alo.Signaling.Store.{check_rate_limit}

-- `n` checks of one key, one after another.
abbrev pub checks : ℕ → ℕ → ℕ → Redis → Redis
checks key max_count zero r = r
checks key max_count (suc n) r = checks key max_count n (check_rate_limit key max_count r).0

counted :
    (key max_count : ℕ) (r : Redis)
    → ((n : ℕ) → r.fails n ≡ false)
    → ((check_rate_limit key max_count r).0.counters key ≡ suc (r.counters key))
      × ((check_rate_limit key max_count r).0.fails ≡ r.fails)
      × ((check_rate_limit key max_count r).1 ≡ ok (ltb max_count (suc (r.counters key))))
unfolding check_rate_limit
counted key max_count r well = (
  ground (arith, well r.commands),
  ground (arith, well r.commands),
  ground (arith, well r.commands),
)

limits_from :
    (key max_count n : ℕ) (r : Redis)
    → ((i : ℕ) → r.fails i ≡ false)
    → (check_rate_limit key max_count (checks key max_count n r)).1
      ≡ ok (ltb max_count (suc (r.counters key + n)))
limits_from key max_count zero r well = ground (arith, (counted key max_count r well).2)
limits_from key max_count (suc n) r well =
    let done = counted key max_count r well in
    ground (
      arith,
      done,
      limits_from key max_count n (check_rate_limit key max_count r).0 (λ i. rw done.1 (well i)),
    )

-- Where no Redis command fails and a key was never counted, the check after `n` others of the key
-- in the same window limits exactly if it is more than the permitted number.
limits_after :
    (key max_count n : ℕ) (r : Redis)
    → ((i : ℕ) → r.fails i ≡ false)
    → r.counters key ≡ 0
    → (check_rate_limit key max_count (checks key max_count n r)).1 ≡ ok (ltb max_count (suc n))
limits_after key max_count n r well fresh =
    ground (arith, limits_from key max_count n r well, fresh)
