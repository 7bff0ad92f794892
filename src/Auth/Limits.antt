-- ===== src/Auth/Limits.antt =====
-- The sliding window of the rate limiter: internal/auth/ratelimit.go. The sorted set of a key in Redis
-- is the list of its members, each the time of a request in nanoseconds, which is unique in the set;
-- its score is that time in microseconds. The set's own expiry, a second after the window, removes
-- only members that the next request would remove.
use lalo_lao_alo.Base.{
  ℕ, ◌+◌, ◌-◌, ◌*◌, ◌/◌, Bool, not, List, [], ◌∷◌, ◌++◌, ltb, leb, filter, length, contains,
  if◌then◌else◌,
}
use lalo_lao_alo.Common.{Time}

pub record RateLimit : Type 0 where
  pub limit : ℕ
  pub window : ℕ

-- `ZREMRANGEBYSCORE key -inf windowStart` removes a member whose score is at most the microsecond of
-- the start of the window; with no subtraction, `score * 1000 + window` is at most `now`.
abbrev pub is_expired : RateLimit → Time → Time → Bool
is_expired rl now member = leb (member / 1000 * 1000 + rl.window) now

unfoldable pub remove_expired : RateLimit → Time → List Time → List Time
remove_expired rl now set = filter (λ m. not (is_expired rl now m)) set

-- `ZADD`.
abbrev pub added : Time → List Time → List Time
added now set = if contains set now then set else set ++ now ∷ []

-- The set after the request, and whether the request is allowed; `refused` is an error of Redis, on
-- which nothing is known to have been executed.
unfoldable pub allow : RateLimit → Time → List Time → List Time × Bool
unfolding remove_expired
allow rl now set =
    let kept = remove_expired rl now set in (added now kept, ltb (length kept) rl.limit)

unfoldable pub remaining : RateLimit → Time → List Time → ℕ
unfolding remove_expired
remaining rl now set = rl.limit - length (remove_expired rl now set)
