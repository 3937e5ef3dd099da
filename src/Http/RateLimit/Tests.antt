-- ===== src/Http/RateLimit/Tests.antt =====
-- The rate limiter on a run of requests: internal/httpmw/ratelimit.go.
use mlx_mesh.Base.{ℕ, ◌+◌, ◌-◌, ◌*◌, ◌≤◌, ◌≡◌, refl, List, [], ◌∷◌, arith}
use mlx_mesh.Base.Dict.{lookup, insert, sweep}
use mlx_mesh.Http.RateLimit.{
  RateLimiter, token, new_rate_limiter, min_of, refill, bucket_of, allow, run_eviction,
}
use mlx_mesh.Http.RateLimit.Bound.{passed-le}
use mlx_mesh.Http.RateLimit.Quota.{Event, requests, evicts, passed, last_time, IsPast}

-- Two requests in a burst, one token a second.
abbrev limiter : RateLimiter
limiter = new_rate_limiter 3600000000 2

-- One request in a burst, one token a minute.
abbrev slow : RateLimiter
slow = new_rate_limiter 60000000 1

abbrev second : ℕ
second = 1000000000

abbrev run : List Event
run =
    requests "a" second
    ∷ requests "a" second
    ∷ requests "b" second
    ∷ requests "a" second
    ∷ requests "a" (2 * second)
    ∷ evicts (700 * second)
    ∷ requests "a" (700 * second)
    ∷ []

-- The third request of "a" at the first second is refused, the others are let through.
four_passed : passed "a" run limiter ≡ 4
unfolding passed allow bucket_of refill min_of run_eviction new_rate_limiter lookup insert sweep
four_passed = refl

-- At 1/60 a second the first request passes, and the next one long after it.
slow_passed : passed "a" run slow ≡ 2
unfolding passed allow bucket_of refill min_of run_eviction new_rate_limiter lookup insert sweep
slow_passed = refl

limiter_unlimited : passed "a" run (new_rate_limiter 0 2) ≡ 5
unfolding passed allow bucket_of refill min_of run_eviction new_rate_limiter lookup insert sweep
limiter_unlimited = refl

passed-le_example :
    passed "a" run limiter * token ≤ limiter.burst + (last_time 0 run - 0) * limiter.rate_per_sec
unfolding new_rate_limiter IsPast lookup
passed-le_example = passed-le "a" run limiter 0 (omega arith) (omega arith) tt tt (
  omega arith,
  (omega arith, (omega arith, (omega arith, (omega arith, (omega arith, (omega arith, tt)))))),
)
