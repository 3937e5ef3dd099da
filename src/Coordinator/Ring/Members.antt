-- ===== src/Coordinator/Ring/Members.antt =====
-- The members of a ring, and the ring of those that are left when one goes.
use mlx_mesh.Base.{
  ℕ, zero, suc, ◌+◌, ◌≤◌, ◌<◌, ◌≡◌, ◌⊎◌, ◌↔◌, refl, sym, ◌∙◌, ap, inl, inr, Bool, true, false, not,
  Option, none, some, List, [], ◌∷◌, ◌++◌, subst, String, str_eq, leb, keep, keep-yes, keep-no,
  keep-append, All, Bool-cases, Option-cases, arith, if◌then◌else◌, none-ne-some,
}
use mlx_mesh.Coordinator.Ring.{
  RingPoint, HashRing, Hashing, hash_ring_replicas, replicas_from, points_of, new_hash_ring,
  search_ring, get,
}
use mlx_mesh.Coordinator.Ring.Sorting.{AllFrom, IsSorted, IsIn}

-- The points of the other members, and the other members.
abbrev pub others : String → RingPoint → Bool
others m p = not (str_eq m p.member)

abbrev pub without : String → List String → List String
without m ms = keep (λ x. not (str_eq m x)) ms

keep-replicas_from :
    (hs : Hashing) (m x : String) (i n : ℕ)
    → keep (others m) (replicas_from hs x i n) ≡ (if str_eq m x then [] else replicas_from hs x i n)
unfolding replicas_from
keep-replicas_from hs m x i zero = ground arith
keep-replicas_from hs m x i (suc n) = ground (arith, keep-replicas_from hs m x (suc i) n)

keep-points_of :
    (hs : Hashing) (m : String) (ms : List String)
    → keep (others m) (points_of hs ms) ≡ points_of hs (without m ms)
unfolding points_of
keep-points_of hs m [] = refl
keep-points_of hs m (x ∷ ms) =
    rw
      (
        keep-append (others m) (replicas_from hs x 0 hash_ring_replicas) (points_of hs ms),
        keep-replicas_from hs m x 0 hash_ring_replicas,
        keep-points_of hs m ms,
      )
      (elim (Bool-cases (str_eq m x)) [
        | inl same ↦ rw (same, keep)
        | inr differs ↦ rw (differs, keep, points_of)
      ])

some_inj : (p q : RingPoint) → ◌≡◌ {A = Option RingPoint} (some p) (some q) → p ≡ q
some_inj p q e = cc

-- `get` by the outcome of its search.
get_hit :
    (hs : Hashing) (ps : HashRing) (key : String) (q : RingPoint)
    → search_ring (hs.hash_key key) ps ≡ some q
    → get hs ps key ≡ some q.member
unfolding get search_ring
get_hit hs [] key q hit = absurd (none-ne-some q hit)
get_hit hs (p ∷ ps) key q hit = rw (hit, get)

get_past :
    (hs : Hashing) (p : RingPoint) (ps : HashRing) (key : String)
    → search_ring (hs.hash_key key) (p ∷ ps) ≡ none
    → get hs (p ∷ ps) key ≡ some p.member
unfolding get
get_past hs p ps key past = rw (past, get)

get-nil : (hs : Hashing) (key : String) → get hs [] key ≡ none
unfolding get
get-nil hs key = refl

text_inj : (a b : String) → ◌≡◌ {A = Option String} (some a) (some b) → a ≡ b
text_inj a b e = cc

search_ring-IsIn : (h : ℕ) (ps : HashRing) (p : RingPoint) → search_ring h ps ≡ some p → IsIn p ps
unfolding search_ring
search_ring-IsIn h [] p e = none-ne-some p e
search_ring-IsIn h (q ∷ qs) p e = elim (Bool-cases (leb h q.hash)) [
  | inl here ↦ inl (some_inj q p (rw (here, search_ring) at e))
  | inr later ↦ inr (search_ring-IsIn h qs p (rw (later, search_ring) at e))
]

-- The point is the first at or after a hash, on a circle.
abbrev pub IsNext : ℕ → RingPoint → HashRing → Type 0
IsNext h p ps =
    ((h ≤ p.hash) × All (λ q. (q.hash < h) ⊎ (p.hash ≤ q.hash)) ps)
    ⊎ All (λ q. (q.hash < h) × (p.hash ≤ q.hash)) ps

search_ring-first :
    (h : ℕ) (ps : HashRing) (p : RingPoint)
    → IsSorted ps
    → search_ring h ps ≡ some p
    → (h ≤ p.hash) × All (λ q. (q.hash < h) ⊎ (p.hash ≤ q.hash)) ps
unfolding search_ring
search_ring-first h [] p s e = absurd (none-ne-some p e)
search_ring-first h (q ∷ qs) p s e = elim (Bool-cases (leb h q.hash)) [
  | inl here ↦
      (let same : q ≡ p = some_inj q p (rw (here, search_ring) at e) in
        subst (λ d. (h ≤ d.hash) × All (λ r. (r.hash < h) ⊎ (d.hash ≤ r.hash)) (q ∷ qs)) same
          (ground arith, (inr (omega arith), after q qs s.0)))
  | inr later ↦
      (let (le, rest) = search_ring-first h qs p s.1 (rw (later, search_ring) at e) in
        (le, (inl (ground arith), rest)))
]
  where
    after :
        (q : RingPoint) (qs : HashRing)
        → AllFrom q.hash qs
        → All (λ r. (r.hash < h) ⊎ (q.hash ≤ r.hash)) qs
    after q [] a = tt
    after q (r ∷ rs) a = (inr a.0, after q rs a.1)

search_ring_past :
    (h k : ℕ) (ps : HashRing)
    → AllFrom k ps
    → search_ring h ps ≡ none
    → All (λ q. (q.hash < h) × (k ≤ q.hash)) ps
unfolding search_ring
search_ring_past h k [] a e = tt
search_ring_past h k (q ∷ qs) a e = elim (Bool-cases (leb h q.hash)) [
  | inl here ↦ absurd (none-ne-some q (sym (rw (here, search_ring) at e)))
  | inr later ↦ ((ground arith, a.0), search_ring_past h k qs a.1 (rw (later, search_ring) at e))
]

-- What is documented of sort.Slice: the points are in order and are the same points.
abbrev pub IsSorting : Hashing → Type 0
IsSorting hs =
    (ps : List RingPoint)
    → IsSorted (hs.sort_slice ps) × ((p : RingPoint) → IsIn p (hs.sort_slice ps) ↔ IsIn p ps)

abbrev pub IsAmong : String → List String → Type 0
IsAmong m [] = ⊥
IsAmong m (x ∷ ms) = (x ≡ m) ⊎ IsAmong m ms

-- One of the 512 replicas of a member.
abbrev pub IsReplica : Hashing → List String → RingPoint → Type 0
IsReplica hs members p =
    IsAmong p.member members
    × (i : ℕ) × (i < 512)
    × (p.hash ≡ hs.hash_key (hs.replica_key p.member i))

IsIn-append : (p : RingPoint) (xs ys : List RingPoint) → IsIn p (xs ++ ys) → IsIn p xs ⊎ IsIn p ys
IsIn-append p [] ys h = inr h
IsIn-append p (x ∷ xs) ys (inl here) = inl (inl here)
IsIn-append p (x ∷ xs) ys (inr later) = elim (IsIn-append p xs ys later) [
  | inl left ↦ inl (inr left)
  | inr right ↦ inr right
]

replica_of :
    (hs : Hashing) (m : String) (i n : ℕ) (p : RingPoint)
    → IsIn p (replicas_from hs m i n)
    → (p.member ≡ m) × (j : ℕ) × (j < i + n) × (p.hash ≡ hs.hash_key (hs.replica_key m j))
unfolding replicas_from
replica_of hs m i zero p h = absurd h
replica_of hs m i (suc n) p (inl here) = (
  sym (ap (λ (q : RingPoint). q.member) here),
  i,
  omega arith,
  sym (ap (λ (q : RingPoint). q.hash) here),
)
replica_of hs m i (suc n) p (inr later) =
    let (same, j, small, hashed) = replica_of hs m (suc i) n p later in
    (same, j, omega (arith, small), hashed)

point-IsReplica :
    (hs : Hashing) (members : List String) (p : RingPoint)
    → IsIn p (points_of hs members)
    → IsReplica hs members p
unfolding points_of
point-IsReplica hs [] p h = absurd h
point-IsReplica hs (m ∷ ms) p h =
    elim (IsIn-append p (replicas_from hs m 0 hash_ring_replicas) (points_of hs ms) h) [
      | inl mine ↦
          (let (same, j, small, hashed) = replica_of hs m 0 hash_ring_replicas p mine in
            (
              inl (sym same),
              j,
              small,
              hashed ∙ ap (λ x. hs.hash_key (hs.replica_key x j)) (sym same),
            ))
      | inr other ↦
          (let (among, j, small, hashed) = point-IsReplica hs ms p other in
            (inr among, j, small, hashed))
    ]

All-of_IsIn {ℓ} :
    (P : RingPoint → Type ℓ) (ps : List RingPoint) → ((q : RingPoint) → IsIn q ps → P q) → All P ps
All-of_IsIn P [] h = tt
All-of_IsIn P (p ∷ ps) h = (h p (inl refl), All-of_IsIn P ps (λ q k. h q (inr k)))

All-at {ℓ} :
    (P : RingPoint → Type ℓ) (ps : List RingPoint) (q : RingPoint) → All P ps → IsIn q ps → P q
All-at P [] q h k = absurd k
All-at P (p ∷ ps) q (h, hs) (inl here) = subst P here h
All-at P (p ∷ ps) q (h, hs) (inr later) = All-at P ps q hs later

-- The same over other points that are all among the ring's.
IsNext-of :
    (h : ℕ) (p : RingPoint) (ps qs : List RingPoint)
    → ((q : RingPoint) → IsIn q qs → IsIn q ps)
    → IsNext h p ps
    → IsNext h p qs
IsNext-of h p ps qs sub (inl (le, all)) = inl (
  le,
  All-of_IsIn (λ q. (q.hash < h) ⊎ (p.hash ≤ q.hash)) qs
      (λ q k. All-at (λ q. (q.hash < h) ⊎ (p.hash ≤ q.hash)) ps q all (sub q k)),
)
IsNext-of h p ps qs sub (inr all) = inr (
    All-of_IsIn (λ q. (q.hash < h) × (p.hash ≤ q.hash)) qs
      (λ q k. All-at (λ q. (q.hash < h) × (p.hash ≤ q.hash)) ps q all (sub q k)))

first_point-IsIn :
    (hs : Hashing) (m : String) (ms : List String)
    → IsIn (record { hash = hs.hash_key (hs.replica_key m 0); member = m }) (points_of hs (m ∷ ms))
unfolding points_of replicas_from
first_point-IsIn hs m ms = inl refl

-- The same with a point of the ring.
on_ring :
    (hs : Hashing) (members : List String) (key : String)
    → IsSorting hs
    → ((members ≡ []) × (get hs (new_hash_ring hs members) key ≡ none))
      ⊎ ((p : RingPoint) × (get hs (new_hash_ring hs members) key ≡ some p.member)
          × IsIn p (points_of hs members)
          × IsNext (hs.hash_key key) p (points_of hs members))
unfolding new_hash_ring
on_ring hs members key sorting =
    let points = points_of hs members in
    let (sorted, same) = sorting points in next (hs.sort_slice points) sorted same
  where
    first_point : String → RingPoint
    first_point m = record { hash = hs.hash_key (hs.replica_key m 0); member = m }

    no_members :
        (ms : List String) → ((p : RingPoint) → IsIn p [] ↔ IsIn p (points_of hs ms)) → ms ≡ []
    no_members [] same = refl
    no_members (m ∷ ms) same = absurd ((same (first_point m)).1 (first_point-IsIn hs m ms))

    next :
        (ps : HashRing)
        → IsSorted ps
        → ((p : RingPoint) → IsIn p ps ↔ IsIn p (points_of hs members))
        → ((members ≡ []) × (get hs ps key ≡ none))
          ⊎ ((p : RingPoint) × (get hs ps key ≡ some p.member)
              × IsIn p (points_of hs members)
              × IsNext (hs.hash_key key) p (points_of hs members))
    next [] s same = inl (no_members members same, get-nil hs key)
    next (p ∷ ps) s same = elim (Option-cases (search_ring (hs.hash_key key) (p ∷ ps))) [
      | inl past ↦ inr (
        p,
        get_past hs p ps key past,
        (same p).0 (inl refl),
        IsNext-of (hs.hash_key key) p (p ∷ ps) (points_of hs members) (λ q. (same q).1)
            (inr (search_ring_past (hs.hash_key key) p.hash (p ∷ ps) (omega arith, s.0) past)),
      )
      | inr (q, hit) ↦ inr (
        q,
        get_hit hs (p ∷ ps) key q hit,
        (same q).0 (search_ring-IsIn (hs.hash_key key) (p ∷ ps) q hit),
        IsNext-of (hs.hash_key key) q (p ∷ ps) (points_of hs members) (λ r. (same r).1)
            (inl (search_ring-first (hs.hash_key key) (p ∷ ps) q s hit)),
      )
    ]

IsIn-keep :
    (f : RingPoint → Bool) (p : RingPoint) (ps : List RingPoint)
    → f p ≡ true
    → IsIn p ps
    → IsIn p (keep f ps)
IsIn-keep f p [] kept h = absurd h
IsIn-keep f p (q ∷ qs) kept (inl here) = rw (keep-yes f q qs (rw here kept)) (inl here)
IsIn-keep f p (q ∷ qs) kept (inr later) = elim (Bool-cases (f q)) [
  | inl stays ↦ rw (keep-yes f q qs stays) (inr (IsIn-keep f p qs kept later))
  | inr goes ↦ rw (keep-no f q qs goes) (IsIn-keep f p qs kept later)
]

keep-IsIn :
    (f : RingPoint → Bool) (p : RingPoint) (ps : List RingPoint) → IsIn p (keep f ps) → IsIn p ps
keep-IsIn f p [] h = absurd h
keep-IsIn f p (q ∷ qs) h = elim (Bool-cases (f q)) [
  | inl stays ↦ first_or (keep-IsIn f p qs) (rw (keep-yes f q qs stays) at h)
  | inr goes ↦ inr (keep-IsIn f p qs (rw (keep-no f q qs goes) at h))
]
  where
    first_or : (IsIn p (keep f qs) → IsIn p qs) → IsIn p (q ∷ keep f qs) → IsIn p (q ∷ qs)
    first_or g (inl here) = inl here
    first_or g (inr later) = inr (g later)

-- Two next points of two rings that have each other's have one hash.
one_hash :
    (h : ℕ) (p q : RingPoint) (ps qs : List RingPoint)
    → IsNext h p ps
    → IsNext h q qs
    → IsIn q ps
    → IsIn p qs
    → p.hash ≡ q.hash
one_hash h p q ps qs np nq at_q at_p = meet (look h p q ps np at_q) (look h q p qs nq at_p)
  where
    look :
        (h : ℕ) (p q : RingPoint) (ps : List RingPoint)
        → IsNext h p ps
        → IsIn q ps
        → ((h ≤ p.hash) × ((q.hash < h) ⊎ (p.hash ≤ q.hash))) ⊎ ((q.hash < h) × (p.hash ≤ q.hash))
    look h p q ps (inl (le, all)) k =
        inl (le, All-at (λ q. (q.hash < h) ⊎ (p.hash ≤ q.hash)) ps q all k)
    look h p q ps (inr all) k = inr (All-at (λ q. (q.hash < h) × (p.hash ≤ q.hash)) ps q all k)

    meet :
        ((h ≤ p.hash) × ((q.hash < h) ⊎ (p.hash ≤ q.hash))) ⊎ ((q.hash < h) × (p.hash ≤ q.hash))
        → ((h ≤ q.hash) × ((p.hash < h) ⊎ (q.hash ≤ p.hash))) ⊎ ((p.hash < h) × (q.hash ≤ p.hash))
        → p.hash ≡ q.hash
    meet a b = ground (arith, a, b)

-- When a member leaves, or is no longer eligible, every key that another member had keeps its member,
-- if no two members have points of one hash: only the keys of the one that left move. Read backwards, a
-- member that joins takes keys over and moves none between the others.
pub get-without :
    (hs : Hashing) (members : List String) (m key x : String)
    → IsSorting hs
    → ((p q : RingPoint)
        → IsReplica hs members p
        → IsReplica hs members q
        → p.hash ≡ q.hash
        → p.member ≡ q.member)
    → get hs (new_hash_ring hs members) key ≡ some x
    → str_eq m x ≡ false
    → get hs (new_hash_ring hs (without m members)) key ≡ some x
get-without hs members m key x sorting apart e other = elim (on_ring hs members key sorting) [
  | inl (empty, nothing) ↦ absurd (none-ne-some x (sym nothing ∙ e))
  | inr (p, got, here, next_p) ↦
      (let mine : p.member ≡ x = text_inj p.member x (sym got ∙ e) in
        let left : IsIn p (points_of hs (without m members)) =
          rw (← keep-points_of hs m members)
            (IsIn-keep (others m) p (points_of hs members) (rw (mine, other)) here) in
        elim (on_ring hs (without m members) key sorting) [
          | inl (empty, nothing) ↦ absurd (nobody (without m members) p empty left)
          | inr (q, got', here', next_q) ↦
              (let there : IsIn q (points_of hs members) =
                  keep-IsIn (others m) q (points_of hs members)
                    (rw (← keep-points_of hs m members) at here') in
                let same =
                  one_hash (hs.hash_key key) p q (points_of hs members)
                    (points_of hs (without m members)) next_p next_q there left in
                let one =
                  apart p q (point-IsReplica hs members p here) (point-IsReplica hs members q there)
                    same in
                got' ∙ ap some (sym one ∙ mine))
        ])
]
  where
    nobody : (ms : List String) (p : RingPoint) → ms ≡ [] → IsIn p (points_of hs ms) → ⊥
    nobody [] p e h = (point-IsReplica hs [] p h).0
    nobody (y ∷ ys) p e h = cc
