-- ===== src/Coordinator/Registry/Candidates.antt =====
-- Which nodes a job or a probe may go to.
use mlx_mesh.Base.{
  ℕ, ◌+◌, ◌-◌, ◌≤◌, ◌<◌, ◌≡◌, ◌≢◌, ap, ◌∙◌, inl, inr, ◌&&◌, not, Bool, true, false, none, some,
  List, [], ◌∷◌, String, All, Bool-cases, Option-cases, arith, eq_refl, if◌then◌else◌, ltb, leb,
  ◌==◌,
}
use mlx_mesh.Base.Int.{ℤ, pos, ◌≤ℤ◌, ltb_ℤ, int_laws}
use mlx_mesh.Base.Dict.{lookup, lookup-insert, lookup-sweep}
use mlx_mesh.Coordinator.Registry.{
  CapabilityManifest, NodeEntry, Registry, liveness_ttl, eviction_ttl, is_live_entry, is_live,
  is_registered, update_entry, evict, refresh, mark_unreachable, mark_seen, add_one, sub_one,
  incr_in_flight, decr_in_flight, is_idle, idle_from, select, place, sort_idle,
}

lookup-update_entry :
    (id : String) (f : NodeEntry → NodeEntry) (r : Registry)
    → lookup id (update_entry id f r) ≡ elim (lookup id r) [ none ↦ none | some e ↦ some (f e) ]
unfolding update_entry
lookup-update_entry id f r = elim (Option-cases (lookup id r)) [
  | inl missing ↦ rw (missing, update_entry, missing)
  | inr (e, here) ↦ rw (here, update_entry, lookup-insert, eq_refl id)
]

is_live-update_entry :
    (now : ℕ) (id : String) (f : NodeEntry → NodeEntry) (r : Registry)
    → is_live now (update_entry id f r) id
      ≡ elim (lookup id r) [ none ↦ false | some e ↦ is_live_entry now (f e) ]
unfolding is_live
is_live-update_entry now id f r =
    ap (λ x. elim x [ none ↦ false | some e ↦ is_live_entry now e ]) (lookup-update_entry id f r)
    ∙ elim (Option-cases (lookup id r)) [ inl missing ↦ rw missing | inr (e, here) ↦ rw here ]

live_now : (now : ℕ) → (ltb (now - now) liveness_ttl && not false) ≡ true
live_now now = ground arith

dead_now : (b : Bool) → (b && not true) ≡ false
dead_now b = ground arith

-- A failed dispatch takes a node out of service at once, and a claim or a refresh puts a registered
-- node back at once.
pub is_live-after :
    (now : ℕ) (r : Registry) (id : String) (m : CapabilityManifest)
    → (is_live now (mark_unreachable r id) id ≡ false)
      × (is_live now (mark_seen now r id) id ≡ is_registered r id)
      × (is_live now (refresh now r id m).0 id ≡ is_registered r id)
unfolding mark_unreachable mark_seen refresh is_registered is_live_entry
is_live-after now r id m = elim (Option-cases (lookup id r)) [
  | inl missing ↦ (
    is_live-update_entry now id _ r ∙ rw missing,
    is_live-update_entry now id _ r ∙ rw (missing, is_registered),
    is_live-update_entry now id _ r ∙ rw (missing, is_registered),
  )
  | inr (e, here) ↦ (
    is_live-update_entry now id _ r ∙ rw here (dead_now _),
    is_live-update_entry now id _ r ∙ rw (here, is_registered) (live_now now),
    is_live-update_entry now id _ r ∙ rw (here, is_registered) (live_now now),
  )
]

-- The eviction never removes a live node, and leaves its entry as it is.
pub evict-is_live :
    (now : ℕ) (r : Registry) (id : String) (e : NodeEntry)
    → lookup id r ≡ some e
    → is_live now r id ≡ true
    → lookup id (evict now r) ≡ some e
unfolding is_live evict is_live_entry
evict-is_live now r id e here live =
    lookup-sweep (λ _ f. ltb eviction_ttl (now - f.last_seen)) id e r here
      (recent (rw (is_live, here) at live))
  where
    recent :
        (ltb (now - e.last_seen) liveness_ttl && not e.unreachable) ≡ true
        → ltb eviction_ttl (now - e.last_seen) ≡ false
    recent h = ground arith

-- What passes a filter, has passed it.
select-All :
    (p : String → NodeEntry → Bool) (Q : NodeEntry → Type 0) (r : Registry)
    → ((id : String) (e : NodeEntry) → p id e ≡ true → Q e)
    → All Q (select p r)
unfolding select
select-All p Q [] h = tt
select-All p Q (e ∷ r) h = elim (Bool-cases (p e.0 e.1)) [
  | inl passed ↦ rw (passed, select) (h e.0 e.1 passed, select-All p Q r h)
  | inr failed ↦ rw (failed, select) (select-All p Q r h)
]

-- Oldest first.
abbrev pub IsSorted : List NodeEntry → Type 0
IsSorted [] = Unit
IsSorted (e ∷ es) = All (λ f. idle_from e ≤ idle_from f) es × IsSorted es

All-place :
    (Q : NodeEntry → Type 0) (e : NodeEntry) (es : List NodeEntry)
    → Q e
    → All Q es
    → All Q (place e es)
unfolding place
All-place Q e [] q h = (q, tt)
All-place Q e (f ∷ fs) q h = elim (Bool-cases (leb (idle_from e) (idle_from f))) [
  | inl first ↦ rw (first, place) (q, h)
  | inr later ↦ rw (later, place) (h.0, All-place Q e fs q h.1)
]

All-after :
    (n m : ℕ) (es : List NodeEntry)
    → n ≤ m
    → All (λ f. m ≤ idle_from f) es
    → All (λ f. n ≤ idle_from f) es
All-after n m [] k h = tt
All-after n m (e ∷ es) k h = (omega (arith, h.0), All-after n m es k h.1)

place-IsSorted : (e : NodeEntry) (es : List NodeEntry) → IsSorted es → IsSorted (place e es)
unfolding place
place-IsSorted e [] s = (tt, tt)
place-IsSorted e (f ∷ fs) s = elim (Bool-cases (leb (idle_from e) (idle_from f))) [
  | inl first ↦
      (let k : idle_from e ≤ idle_from f = ground arith in
        rw (first, place) ((k, All-after (idle_from e) (idle_from f) fs k s.0), s))
  | inr later ↦
      (let k : idle_from f ≤ idle_from e = ground arith in
        rw (later, place)
          (All-place (λ g. idle_from f ≤ idle_from g) e fs k s.0, place-IsSorted e fs s.1))
]

sort_idle-IsSorted : (es : List NodeEntry) → IsSorted (sort_idle es)
unfolding sort_idle
sort_idle-IsSorted [] = tt
sort_idle-IsSorted (e ∷ es) = place-IsSorted e (sort_idle es) (sort_idle-IsSorted es)

All-sort_idle : (Q : NodeEntry → Type 0) (es : List NodeEntry) → All Q es → All Q (sort_idle es)
unfolding sort_idle
All-sort_idle Q [] h = tt
All-sort_idle Q (e ∷ es) h = All-place Q e (sort_idle es) h.0 (All-sort_idle Q es h.1)

-- When a node last served a job, or came, if it has not served one.
abbrev pub served_or_came : NodeEntry → ℕ
served_or_came e = elim e.last_job_served_at [ none ↦ e.registered_at | some t ↦ t ]

-- The nodes that have been idle the longest come first.
abbrev pub IsLongestFirst : List NodeEntry → Type 0
IsLongestFirst [] = Unit
IsLongestFirst (e ∷ es) = All (λ f. served_or_came e ≤ served_or_came f) es × IsLongestFirst es

longest_first : (es : List NodeEntry) → IsSorted es → IsLongestFirst es
unfolding idle_from
longest_first [] h = tt
longest_first (e ∷ es) (first, rest) = (first, longest_first es rest)

-- A node that a probe may go to: it was seen in the last 45 seconds, it is not marked
-- unreachable, it is not simulated, it has a model, and it has neither served a job nor come for the given time.
abbrev pub IsProbeable : ℕ → ℕ → NodeEntry → Type 0
IsProbeable now idle_since e =
    (now < e.last_seen + 45000000000)
    × (e.unreachable ≡ false)
    × (e.manifest.simulated ≡ false)
    × (e.manifest.models ≢ [])
    × (served_or_came e + idle_since ≤ now)

passed :
    (now idle_since : ℕ) (r : Registry) (id : String) (e : NodeEntry)
    → is_idle now idle_since r id e ≡ true
    → IsProbeable now idle_since e
unfolding is_idle is_live_entry idle_from
passed now idle_since r id e h = ground arith

-- The nodes offered for a probe are probeable and come in the order of their idleness.
pub sort_idle-IsProbeable :
    (now idle_since : ℕ) (r : Registry)
    → let es = sort_idle (select (is_idle now idle_since r) r) in
      IsLongestFirst es × All (IsProbeable now idle_since) es
sort_idle-IsProbeable now idle_since r = (
  longest_first _ (sort_idle-IsSorted (select (is_idle now idle_since r) r)),
  All-sort_idle (IsProbeable now idle_since) (select (is_idle now idle_since r) r) (
      select-All (is_idle now idle_since r) (IsProbeable now idle_since) r
        (passed now idle_since r)),
)

flight_back :
    (n : ℕ)
    → n < 2147483647
    → (if ltb_ℤ (sub_one (add_one (pos n))) (pos 0) then pos 0 else sub_one (add_one (pos n)))
      ≡ pos n
unfolding add_one sub_one
flight_back n h =
    let room : (n == 2147483647) ≡ false = ground arith in rw (room, add_one) (grind int_laws)

-- A job that is dispatched and finished leaves the counter of its node as it was, if the counter is
-- not negative and below the largest int32.
pub decr_in_flight-incr :
    (r : Registry) (id : String) (e : NodeEntry) (n : ℕ)
    → lookup id r ≡ some e
    → e.in_flight ≡ pos n
    → n < 2147483647
    → (f : NodeEntry) × (lookup id (decr_in_flight (incr_in_flight r id) id) ≡ some f)
      × (f.in_flight ≡ pos n)
unfolding decr_in_flight incr_in_flight
decr_in_flight-incr r id e n here count h =
    let z = sub_one (add_one e.in_flight) in
    (
      record e { in_flight = if ltb_ℤ z (pos 0) then pos 0 else z },
      rw (lookup-update_entry, lookup-update_entry, here),
      rw count (flight_back n h),
    )

-- A finished job never leaves the counter of its node negative, whatever it was.
pub decr_in_flight-nonneg :
    (r : Registry) (id : String) (e : NodeEntry)
    → lookup id r ≡ some e
    → (f : NodeEntry) × (lookup id (decr_in_flight r id) ≡ some f) × (pos 0 ≤ℤ f.in_flight)
unfolding decr_in_flight
decr_in_flight-nonneg r id e here =
    let z = sub_one e.in_flight in
    (
      record e { in_flight = if ltb_ℤ z (pos 0) then pos 0 else z },
      rw (lookup-update_entry, here),
      floored z,
    )
  where
    floored : (z : ℤ) → pos 0 ≤ℤ (if ltb_ℤ z (pos 0) then pos 0 else z)
    floored z = grind int_laws
