-- ===== src/Coordinator/Ring.antt =====
-- internal/coordinator/consistenthash.go. The hash of hash/fnv, the name of a replica, which fmt.Sprintf
-- makes, and sort.Slice, which may order points of one hash as it likes, are arguments.
pub mod Sorting
pub mod Members
mod Tests
use mlx_mesh.Base.{
  ℕ, zero, suc, ◌++◌, Bool, true, false, Option, none, some, List, [], ◌∷◌, String, leb,
  if◌then◌else◌,
}

pub record RingPoint : Type 0 where
  pub hash : ℕ
  pub member : String

abbrev pub HashRing : Type 0
HashRing = List RingPoint

pub record Hashing : Type 0 where
  pub hash_key : String → ℕ
  pub replica_key : String → ℕ → String
  pub sort_slice : List RingPoint → List RingPoint

abbrev pub hash_ring_replicas : ℕ
hash_ring_replicas = 512

-- The points of a member from replica `i` on.
unfoldable pub replicas_from : Hashing → String → ℕ → ℕ → List RingPoint
replicas_from hs m i zero = []
replicas_from hs m i (suc n) =
    record { hash = hs.hash_key (hs.replica_key m i); member = m } ∷ replicas_from hs m (suc i) n

unfoldable pub points_of : Hashing → List String → List RingPoint
points_of hs [] = []
points_of hs (m ∷ ms) = replicas_from hs m 0 hash_ring_replicas ++ points_of hs ms

-- One way to sort.
unfoldable pub insert_point : RingPoint → HashRing → HashRing
insert_point p [] = p ∷ []
insert_point p (q ∷ qs) = if leb p.hash q.hash then p ∷ q ∷ qs else q ∷ insert_point p qs

unfoldable pub sort_points : List RingPoint → HashRing
sort_points [] = []
sort_points (p ∷ ps) = insert_point p (sort_points ps)

unfoldable pub new_hash_ring : Hashing → List String → HashRing
new_hash_ring hs members = hs.sort_slice (points_of hs members)

-- `sort.Search`: the first point whose hash is `h` or more.
unfoldable pub search_ring : ℕ → HashRing → Option RingPoint
search_ring h [] = none
search_ring h (p ∷ ps) = if leb h p.hash then some p else search_ring h ps

unfoldable pub get : Hashing → HashRing → String → Option String
get hs [] key = none
get hs (first ∷ ps) key = elim (search_ring (hs.hash_key key) (first ∷ ps)) [
  | none ↦ some first.member
  | some p ↦ some p.member
]
