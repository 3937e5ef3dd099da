-- ===== src/Http/RateLimit/Bound.antt =====
-- How many requests a client gets through in a span of time: over the events of Quota.
use mlx_mesh.Base.{
  ℕ, ◌+◌, ◌-◌, ◌*◌, ◌≤◌, ◌≡◌, ◌≢◌, Option, none, some, List, [], ◌∷◌, String, arith,
}
use mlx_mesh.Base.Dict.{lookup, IsDistinct}
use native.Mathlib.Nat.{add-mul}
use mlx_mesh.Http.RateLimit.{Bucket, RateLimiter, token, idle_limit, refill}
use mlx_mesh.Http.RateLimit.Quota.{
  Event, requests, evicts, time_of, step, passed, IsOrdered, last_time, available_in, available,
  IsPast, IsPaid, min_of-le, available_later, requests-IsPaid, evicts-IsPaid,
}

IsPast-later : (t now : ℕ) (o : Option Bucket) → IsPast t o → t ≤ now → IsPast now o
unfolding IsPast
IsPast-later t now none h k = tt
IsPast-later t now (some b) h k = omega (arith, h, k)

step-IsPaid :
    (k : String) (e : Event) (l : RateLimiter)
    → l.rate_per_sec ≢ 0
    → l.burst ≤ idle_limit * l.rate_per_sec
    → IsDistinct l.buckets
    → IsPast (time_of e) (lookup k l.buckets)
    → IsPaid k e l
step-IsPaid k (requests key now) l pos enough d past = requests-IsPaid k key now l pos d past
step-IsPaid k (evicts now) l pos enough d past = evicts-IsPaid k now l enough d past

last_later : (t : ℕ) (es : List Event) → IsOrdered t es → t ≤ last_time t es
unfolding last_time
last_later t [] o = omega arith
last_later t (e ∷ es) (h, o) = omega (arith, h, last_later (time_of e) es o)

spans :
    (t now last rate : ℕ)
    → t ≤ now
    → now ≤ last
    → (now - t) * rate + (last - now) * rate ≡ (last - t) * rate
spans t now last rate h k =
    let whole : last - t ≡ (now - t) + (last - now) = omega (arith, h, k) in
    rw (whole, add-mul (now - t) (last - now) rate)

passed-available :
    (k : String) (es : List Event) (l : RateLimiter) (t : ℕ)
    → l.rate_per_sec ≢ 0
    → l.burst ≤ idle_limit * l.rate_per_sec
    → IsDistinct l.buckets
    → IsPast t (lookup k l.buckets)
    → IsOrdered t es
    → passed k es l * token ≤ available l k t + (last_time t es - t) * l.rate_per_sec
unfolding passed last_time
passed-available k [] l t pos enough d past o = omega arith
passed-available k (e ∷ es) l t pos enough d past (h, o) =
    let (paid, later, distinct, rate, burst) =
      step-IsPaid k e l pos enough d (IsPast-later t (time_of e) (lookup k l.buckets) past h) in
    let filled = available_later l t (time_of e) (lookup k l.buckets) past h in
    let rest =
      passed-available k es (step e l) (time_of e) (rw rate pos) (rw (rate, burst) enough) distinct
        later o in
    let rest' : passed k es (step e l) * token
        ≤ available (step e l) k (time_of e)
          + (last_time (time_of e) es - time_of e) * l.rate_per_sec =
      rw rate at rest in
    let span =
      spans t (time_of e) (last_time (time_of e) es) l.rate_per_sec h
        (last_later (time_of e) es o) in
    omega (arith, paid, filled, rest', span)

available_burst : (l : RateLimiter) (now : ℕ) (o : Option Bucket) → available_in l now o ≤ l.burst
unfolding available_in refill
available_burst l now none = omega arith
available_burst l now (some b) = min_of-le l.burst _

-- From an orderly limiter whose burst refills within the ten minutes of the eviction, the requests of
-- one client that are let through in a span of time are at most the burst and what the rate gives in
-- that span, whatever other clients request and whenever idle buckets are evicted in between.
pub passed-le :
    (k : String) (es : List Event) (l : RateLimiter) (t : ℕ)
    → l.rate_per_sec ≢ 0
    → l.burst ≤ idle_limit * l.rate_per_sec
    → IsDistinct l.buckets
    → IsPast t (lookup k l.buckets)
    → IsOrdered t es
    → passed k es l * token ≤ l.burst + (last_time t es - t) * l.rate_per_sec
passed-le k es l t pos enough d past o =
    omega (
      arith,
      passed-available k es l t pos enough d past o,
      available_burst l t (lookup k l.buckets),
    )
