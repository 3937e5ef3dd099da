-- ===== src/Coordinator/Ring/Tests.antt =====
-- A ring of two members whose points do not meet: "a" has the points at 1, "b" those at 2.
use mlx_mesh.Base.{
  ◌≡◌, ◌⊎◌, refl, sym, arith, inl, inr, some, List, [], ◌∷◌, String, str_eq, if◌then◌else◌,
}
use mlx_mesh.Coordinator.Ring.{
  RingPoint, Hashing, replicas_from, points_of, insert_point, sort_points, new_hash_ring,
  search_ring, get,
}
use mlx_mesh.Coordinator.Ring.Sorting.{sort_points-IsSorted, sort_points-IsIn}
use mlx_mesh.Coordinator.Ring.Members.{without, IsSorting, IsReplica, get-without}

abbrev by_name : Hashing
by_name = record {
  hash_key = λ s. if str_eq s "a" then 1 else 2;
  replica_key = λ m _. m;
  sort_slice = sort_points;
}

abbrev pair : List String
pair = "a" ∷ "b" ∷ []

by_name-IsSorting : IsSorting by_name
by_name-IsSorting ps = (sort_points-IsSorted ps, λ p. sort_points-IsIn p ps)

point_of :
    (p : RingPoint)
    → IsReplica by_name pair p
    → ((p.member ≡ "a") × (p.hash ≡ 1)) ⊎ ((p.member ≡ "b") × (p.hash ≡ 2))
point_of p (inl a, i, small, h) = inl (sym a, rw (← a) at h)
point_of p (inr (inl b), i, small, h) = inr (sym b, rw (← b) at h)
point_of p (inr (inr nobody), i, small, h) = absurd nobody

by_name_apart :
    (p q : RingPoint)
    → IsReplica by_name pair p
    → IsReplica by_name pair q
    → p.hash ≡ q.hash
    → p.member ≡ q.member
by_name_apart p q at_p at_q same = elim (point_of p at_p) [
  | inl (a, one) ↦ elim (point_of q at_q) [
    | inl (a', one') ↦ cc
    | inr (b, two) ↦ absurd (omega (arith, same, one, two))
  ]
  | inr (b, two) ↦ elim (point_of q at_q) [
    | inl (a, one) ↦ absurd (omega (arith, same, one, two))
    | inr (b', two') ↦ cc
  ]
]

get_of_two : get by_name (new_hash_ring by_name pair) "a" ≡ some "a"
unfolding get new_hash_ring sort_points points_of replicas_from insert_point search_ring
get_of_two = refl

get-without_example : get by_name (new_hash_ring by_name (without "b" pair)) "a" ≡ some "a"
get-without_example =
    get-without by_name pair "b" "a" "a" by_name-IsSorting by_name_apart get_of_two refl
