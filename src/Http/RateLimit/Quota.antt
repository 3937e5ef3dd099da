-- ===== src/Http/RateLimit/Quota.antt =====
-- How many requests a client gets through.
use mlx_mesh.Base.{
  ℕ, ◌+◌, ◌-◌, ◌*◌, ◌≤◌, ◌≡◌, ◌≢◌, refl, inl, inr, true, false, ◌&&◌, Option, none, some, List, [],
  ◌∷◌, String, str_eq, ltb, ◌==◌, if◌then◌else◌, Bool-cases, Option-cases, String-cases, arith,
  eq_refl,
}
use mlx_mesh.Base.Dict.{
  lookup, insert, lookup-insert, lookup-sweep, lookup-sweep-none, lookup-swept, IsDistinct,
  insert-IsDistinct, sweep-IsDistinct,
}
use native.Mathlib.Nat.{add-mul, mul-le-mul_right}
use mlx_mesh.Http.RateLimit.{
  Bucket, RateLimiter, token, idle_limit, min_of, refill, bucket_of, allow, run_eviction,
}

-- A request of a client, or a tick of the eviction.
pub data Event : Type 0 where
  requests : String → ℕ → Event
  evicts : ℕ → Event

abbrev pub time_of : Event → ℕ
time_of (requests key now) = now
time_of (evicts now) = now

abbrev pub step : Event → RateLimiter → RateLimiter
step (requests key now) l = (allow key now l).0
step (evicts now) l = run_eviction now l

-- The requests of a client that are allowed.
abbrev pub passes : String → Event → RateLimiter → ℕ
passes k (requests key now) l = if str_eq key k && (allow key now l).1 then 1 else 0
passes k (evicts now) l = 0

unfoldable pub passed : String → List Event → RateLimiter → ℕ
passed k [] l = 0
passed k (e ∷ es) l = passes k e l + passed k es (step e l)

-- The times do not run backwards, and the last of them.
abbrev pub IsOrdered : ℕ → List Event → Type 0
IsOrdered from [] = Unit
IsOrdered from (e ∷ es) = (from ≤ time_of e) × IsOrdered (time_of e) es

unfoldable pub last_time : ℕ → List Event → ℕ
last_time from [] = from
last_time from (e ∷ es) = last_time (time_of e) es

-- What a client could take at a time.
unfoldable pub available_in : RateLimiter → ℕ → Option Bucket → ℕ
available_in l now none = l.burst
available_in l now (some b) = refill l.rate_per_sec l.burst now b

abbrev pub available : RateLimiter → String → ℕ → ℕ
available l k now = available_in l now (lookup k l.buckets)

-- No bucket of the client was used later than now.
unfoldable pub IsPast : ℕ → Option Bucket → Type 0
IsPast now none = Unit
IsPast now (some b) = b.last_seen ≤ now

-- Over time the bucket fills at the rate at most.
min_shift : (m a x y : ℕ) → min_of m (a + (x + y)) ≤ min_of m (a + x) + y
unfolding min_of
min_shift m a x y = ground arith

pub min_of-le : (a b : ℕ) → min_of a b ≤ a
unfolding min_of
min_of-le a b = ground arith

refill_later :
    (rate burst t now : ℕ) (b : Bucket)
    → b.last_seen ≤ t
    → t ≤ now
    → refill rate burst now b ≤ refill rate burst t b + (now - t) * rate
unfolding refill
refill_later rate burst t now b h k =
    let whole : now - b.last_seen ≡ (t - b.last_seen) + (now - t) = omega (arith, h, k) in
    rw (whole, add-mul (t - b.last_seen) (now - t) rate)
      (min_shift burst b.tokens ((t - b.last_seen) * rate) ((now - t) * rate))

pub available_later :
    (l : RateLimiter) (t now : ℕ) (o : Option Bucket)
    → IsPast t o
    → t ≤ now
    → available_in l now o ≤ available_in l t o + (now - t) * l.rate_per_sec
unfolding available_in IsPast
available_later l t now none h k = omega arith
available_later l t now (some b) h k = refill_later l.rate_per_sec l.burst t now b h k

whole : (n : ℕ) → min_of n (n + 0) ≡ n
unfolding min_of
whole n = ground arith

held_eq :
    (k : String) (now : ℕ) (l : RateLimiter)
    → refill l.rate_per_sec l.burst now (bucket_of l k now) ≡ available l k now
unfolding bucket_of available_in refill
held_eq k now l = elim (Option-cases (lookup k l.buckets)) [
  | inl new ↦ rw (new, bucket_of, available_in) (full l.rate_per_sec l.burst now)
  | inr (b, known) ↦ rw (known, bucket_of, available_in)
]
  where
    full :
        (rate burst now : ℕ)
        → refill rate burst now (record { tokens = burst; last_seen = now }) ≡ burst
    full rate burst now =
        let none_yet : now - now ≡ 0 = omega arith in
        let nothing : 0 * rate ≡ 0 = omega arith in rw (none_yet, nothing, refill) (whole burst)

refill_now :
    (rate burst now x : ℕ) → refill rate burst now (record { tokens = x; last_seen = now }) ≤ x
unfolding refill min_of
refill_now rate burst now x =
    let none_yet : now - now ≡ 0 = omega arith in
    let nothing : 0 * rate ≡ 0 = omega arith in rw (none_yet, nothing) (ground arith)

take_one :
    (rate burst now held : ℕ)
    → (if (if ltb held token then false else true) then 1 else 0) * token
        + refill rate burst now
            (record { tokens = if ltb held token then held else held - token; last_seen = now })
      ≤ held
take_one rate burst now held = elim (Bool-cases (ltb held token)) [
  | inl few ↦ rw few (omega (arith, refill_now rate burst now held))
  | inr enough ↦
      (let more : token ≤ held = ground arith in
        rw enough (omega (arith, refill_now rate burst now (held - token), more)))
]

-- What is left of so many tokens after a request.
abbrev rest_of : ℕ → ℕ
rest_of held = if ltb held token then held else held - token

allow_on :
    (k : String) (now : ℕ) (l : RateLimiter)
    → l.rate_per_sec ≢ 0
    → allow k now l ≡ (
      record l {
        buckets =
            insert k (record { tokens = rest_of (available l k now); last_seen = now }) l.buckets;
      },
      if ltb (available l k now) token then false else true,
    )
unfolding allow
allow_on k now l pos =
    let on : (l.rate_per_sec == 0) ≡ false = ground arith in rw (on, allow, held_eq k now l)

-- A request of the client takes a token if it passes.
allow-takes :
    (k : String) (now : ℕ) (l : RateLimiter)
    → l.rate_per_sec ≢ 0
    → ((if (allow k now l).1 then 1 else 0) * token + available (allow k now l).0 k now
        ≤ available l k now)
      × IsPast now (lookup k (allow k now l).0.buckets)
unfolding available_in IsPast
allow-takes k now l pos =
    rw (allow_on k now l pos, lookup-insert, eq_refl, available_in, allow_on k now l pos)
      (take_one l.rate_per_sec l.burst now (available l k now), omega arith)

-- Requests of others leave what the client could take.
allow-others :
    (k key : String) (now : ℕ) (l : RateLimiter)
    → str_eq key k ≡ false
    → lookup k (allow key now l).0.buckets ≡ lookup k l.buckets
unfolding allow
allow-others k key now l other = elim (Bool-cases (l.rate_per_sec == 0)) [
  | inl off ↦ rw (off, allow)
  | inr on ↦ rw (on, allow, lookup-insert, other)
]

filled_up : (m a x : ℕ) → m ≤ x → min_of m (a + x) ≡ m
unfolding min_of
filled_up m a x h = ground arith

-- A bucket that was idle for ten minutes is full, if the burst refills in ten minutes.
idle_full :
    (rate burst now : ℕ) (b : Bucket)
    → burst ≤ idle_limit * rate
    → ltb idle_limit (now - b.last_seen) ≡ true
    → refill rate burst now b ≡ burst
unfolding refill
idle_full rate burst now b enough idle =
    let long : idle_limit ≤ now - b.last_seen = ground arith in
    let filled : idle_limit * rate ≤ (now - b.last_seen) * rate = mul-le-mul_right rate long in
    filled_up burst b.tokens ((now - b.last_seen) * rate) (omega (arith, enough, filled))

evicted :
    (k : String) (now : ℕ) (l : RateLimiter)
    → l.burst ≤ idle_limit * l.rate_per_sec
    → IsDistinct l.buckets
    → IsPast now (lookup k l.buckets)
    → (available (run_eviction now l) k now ≤ available l k now)
      × IsPast now (lookup k (run_eviction now l).buckets)
unfolding run_eviction available_in IsPast
evicted k now l enough d past = elim (Option-cases (lookup k l.buckets)) [
  | inl absent ↦
      rw
        (absent, lookup-sweep-none (λ key b. ltb idle_limit (now - b.last_seen)) k l.buckets absent)
        (omega arith, tt)
  | inr (b, known) ↦ elim (Bool-cases (ltb idle_limit (now - b.last_seen))) [
    | inl idle ↦
        rw
          (
            known,
            lookup-swept (λ key b. ltb idle_limit (now - b.last_seen)) k b l.buckets d known idle,
          )
          (omega (arith, idle_full l.rate_per_sec l.burst now b enough idle), tt)
    | inr recent ↦
        rw
          (
            lookup-sweep (λ key b. ltb idle_limit (now - b.last_seen)) k b l.buckets known recent,
            known,
          )
          (omega arith, rw known at past)
  ]
]

-- What one event does: it pays for the request that it lets through, and keeps the limiter in order.
abbrev pub IsPaid : String → Event → RateLimiter → Type 0
IsPaid k e l =
    (passes k e l * token + available (step e l) k (time_of e) ≤ available l k (time_of e))
    × IsPast (time_of e) (lookup k (step e l).buckets)
    × IsDistinct (step e l).buckets
    × ((step e l).rate_per_sec ≡ l.rate_per_sec)
    × ((step e l).burst ≡ l.burst)

available_same :
    (l l' : RateLimiter) (now : ℕ) (o : Option Bucket)
    → l'.rate_per_sec ≡ l.rate_per_sec
    → l'.burst ≡ l.burst
    → available_in l' now o ≡ available_in l now o
unfolding available_in
available_same l l' now none r b = b
available_same l l' now (some x) r b = rw (r, b)

pub requests-IsPaid :
    (k key : String) (now : ℕ) (l : RateLimiter)
    → l.rate_per_sec ≢ 0
    → IsDistinct l.buckets
    → IsPast now (lookup k l.buckets)
    → IsPaid k (requests key now) l
requests-IsPaid k key now l pos d past = elim (String-cases key k) [
  | inl same ↦
      (let (paid, later) = allow-takes k now l pos in
        let (distinct, rate, burst) = kept k in
        rw (same, eq_refl) (paid, later, distinct, rate, burst))
  | inr other ↦
      (let (distinct, rate, burst) = kept key in
        let mine = allow-others k key now l other in
        rw (other, mine)
          (
            omega (arith, available_same l (allow key now l).0 now (lookup k l.buckets) rate burst),
            past,
            distinct,
            rate,
            burst,
          ))
]
  where
    kept :
        (key : String)
        → IsDistinct (allow key now l).0.buckets
          × ((allow key now l).0.rate_per_sec ≡ l.rate_per_sec)
          × ((allow key now l).0.burst ≡ l.burst)
    kept key = rw (allow_on key now l pos) (insert-IsDistinct key _ l.buckets d, refl, refl)

pub evicts-IsPaid :
    (k : String) (now : ℕ) (l : RateLimiter)
    → l.burst ≤ idle_limit * l.rate_per_sec
    → IsDistinct l.buckets
    → IsPast now (lookup k l.buckets)
    → IsPaid k (evicts now) l
unfolding run_eviction
evicts-IsPaid k now l enough d past =
    let (same, later) = evicted k now l enough d past in
    (omega (arith, same), later, sweep-IsDistinct _ l.buckets d, refl, refl)
