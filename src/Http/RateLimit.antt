-- ===== src/Http/RateLimit.antt =====
-- internal/httpmw/ratelimit.go. The rate is in millionths of a token an hour, of which the rates of the
-- commands (1/60, 6/3600 and quota/3600 a second, and the flags) are whole numbers; tokens are counted
-- in the unit of which a nanosecond refills `rate`. The time of a call is its argument.
pub mod Bound
pub mod Quota
mod Tests
use mlx_mesh.Base.{
  ℕ, suc, ◌+◌, ◌-◌, ◌*◌, Bool, true, false, Option, none, some, [], String, ltb, ◌==◌,
  if◌then◌else◌,
}
use mlx_mesh.Base.Dict.{Dict, lookup, insert, sweep}

pub record Bucket : Type 0 where
  pub tokens : ℕ
  pub last_seen : ℕ

pub record RateLimiter : Type 0 where
  pub buckets : Dict Bucket
  pub rate_per_sec : ℕ
  pub burst : ℕ

abbrev pub token : ℕ
token = 3600 * 1000000000 * 1000000

-- Ten minutes.
abbrev pub idle_limit : ℕ
idle_limit = 600 * 1000000000

unfoldable pub new_rate_limiter : ℕ → ℕ → RateLimiter
new_rate_limiter rate burst = record { buckets = []; rate_per_sec = rate; burst = burst * token }

unfoldable pub min_of : ℕ → ℕ → ℕ
min_of a b = if ltb b a then b else a

-- What a bucket holds at a time.
unfoldable pub refill : ℕ → ℕ → ℕ → Bucket → ℕ
refill rate burst now b = min_of burst (b.tokens + (now - b.last_seen) * rate)

unfoldable pub bucket_of : RateLimiter → String → ℕ → Bucket
bucket_of l key now = elim (lookup key l.buckets) [
  | none ↦ record { tokens = l.burst; last_seen = now }
  | some b ↦ b
]

unfoldable pub allow : String → ℕ → RateLimiter → RateLimiter × Bool
allow key now l =
    let held = refill l.rate_per_sec l.burst now (bucket_of l key now) in
    let left : ℕ = if ltb held token then held else held - token in
    if l.rate_per_sec == 0 then (l, true) else (
      record l { buckets = insert key (record { tokens = left; last_seen = now }) l.buckets },
      if ltb held token then false else true,
    )

-- One tick of `runEviction`.
unfoldable pub run_eviction : ℕ → RateLimiter → RateLimiter
run_eviction now l = record l {
  buckets = sweep (λ key b. ltb idle_limit (now - b.last_seen)) l.buckets;
}
