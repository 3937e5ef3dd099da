-- ===== src/Coordinator/Ring/Sorting.antt =====
-- The order of the points of a ring.
use mlx_mesh.Base.{◌⊎◌, ◌↔◌, ℕ, ◌≤◌, ◌≡◌, inl, inr, List, [], ◌∷◌, leb, All, Bool-cases, arith}
use mlx_mesh.Coordinator.Ring.{RingPoint, HashRing, insert_point, sort_points}

abbrev pub AllFrom : ℕ → HashRing → Type 0
AllFrom h ps = All (λ p. h ≤ p.hash) ps

abbrev pub IsSorted : HashRing → Type 0
IsSorted [] = Unit
IsSorted (p ∷ ps) = AllFrom p.hash ps × IsSorted ps

AllFrom-insert :
    (h : ℕ) (p : RingPoint) (ps : HashRing)
    → h ≤ p.hash
    → AllFrom h ps
    → AllFrom h (insert_point p ps)
unfolding insert_point
AllFrom-insert h p [] e a = (e, tt)
AllFrom-insert h p (q ∷ qs) e a = elim (Bool-cases (leb p.hash q.hash)) [
  | inl here ↦ rw (here, insert_point) (e, a)
  | inr later ↦ rw (later, insert_point) (a.0, AllFrom-insert h p qs e a.1)
]

AllFrom-le : (h k : ℕ) (ps : HashRing) → h ≤ k → AllFrom k ps → AllFrom h ps
AllFrom-le h k [] e a = tt
AllFrom-le h k (p ∷ ps) e a = (omega (arith, a.0), AllFrom-le h k ps e a.1)

insert_point-IsSorted : (p : RingPoint) (ps : HashRing) → IsSorted ps → IsSorted (insert_point p ps)
unfolding insert_point
insert_point-IsSorted p [] s = (tt, tt)
insert_point-IsSorted p (q ∷ qs) s = elim (Bool-cases (leb p.hash q.hash)) [
  | inl here ↦
      (let le : p.hash ≤ q.hash = ground arith in
        rw (here, insert_point) ((le, AllFrom-le p.hash q.hash qs le s.0), s))
  | inr later ↦
      rw (later, insert_point)
        (AllFrom-insert q.hash p qs (ground arith) s.0, insert_point-IsSorted p qs s.1)
]

pub sort_points-IsSorted : (ps : List RingPoint) → IsSorted (sort_points ps)
unfolding sort_points
sort_points-IsSorted [] = tt
sort_points-IsSorted (p ∷ ps) = insert_point-IsSorted p (sort_points ps) (sort_points-IsSorted ps)

abbrev pub IsIn : RingPoint → HashRing → Type 0
IsIn p [] = ⊥
IsIn p (q ∷ qs) = (q ≡ p) ⊎ IsIn p qs

insert_point-IsIn :
    (r p : RingPoint) (ps : HashRing) → IsIn r (insert_point p ps) ↔ ((p ≡ r) ⊎ IsIn r ps)
unfolding insert_point
insert_point-IsIn r p [] = (λ h. h, λ h. h)
insert_point-IsIn r p (q ∷ qs) = elim (Bool-cases (leb p.hash q.hash)) [
  | inl here ↦ rw (here, insert_point) (λ h. h, λ h. h)
  | inr later ↦
      rw (later, insert_point) (to (insert_point-IsIn r p qs).0, from (insert_point-IsIn r p qs).1)
]
  where
    to :
        (IsIn r (insert_point p qs) → (p ≡ r) ⊎ IsIn r qs)
        → (q ≡ r) ⊎ IsIn r (insert_point p qs)
        → (p ≡ r) ⊎ ((q ≡ r) ⊎ IsIn r qs)
    to f (inl first) = inr (inl first)
    to f (inr rest) = elim (f rest) [ inl new ↦ inl new | inr old ↦ inr (inr old) ]

    from :
        ((p ≡ r) ⊎ IsIn r qs → IsIn r (insert_point p qs))
        → (p ≡ r) ⊎ ((q ≡ r) ⊎ IsIn r qs)
        → (q ≡ r) ⊎ IsIn r (insert_point p qs)
    from f (inl new) = inr (f (inl new))
    from f (inr (inl first)) = inl first
    from f (inr (inr old)) = inr (f (inr old))

-- Sorting drops and adds no point.
pub sort_points-IsIn : (r : RingPoint) (ps : List RingPoint) → IsIn r (sort_points ps) ↔ IsIn r ps
unfolding sort_points
sort_points-IsIn r [] = (λ h. h, λ h. h)
sort_points-IsIn r (p ∷ ps) = (to (sort_points-IsIn r ps).0, from (sort_points-IsIn r ps).1)
  where
    to :
        (IsIn r (sort_points ps) → IsIn r ps)
        → IsIn r (insert_point p (sort_points ps))
        → (p ≡ r) ⊎ IsIn r ps
    to f h = elim ((insert_point-IsIn r p (sort_points ps)).0 h) [
      | inl new ↦ inl new
      | inr old ↦ inr (f old)
    ]

    from :
        (IsIn r ps → IsIn r (sort_points ps))
        → (p ≡ r) ⊎ IsIn r ps
        → IsIn r (insert_point p (sort_points ps))
    from f (inl new) = (insert_point-IsIn r p (sort_points ps)).1 (inl new)
    from f (inr old) = (insert_point-IsIn r p (sort_points ps)).1 (inr (f old))
