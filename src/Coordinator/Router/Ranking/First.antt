-- ===== src/Coordinator/Router/Ranking/First.antt =====
-- Which node is tried first.
use mlx_mesh.Base.{
  ℕ, ◌<◌, ◌≡◌, ◌≢◌, ◌⊎◌, inl, inr, true, false, some, List, [], ◌∷◌, map, String, get_elem?,
  Bool-cases, arith,
}
use mlx_mesh.Base.Int.{pos, ltb_ℤ}
use mlx_mesh.Coordinator.Ring.{Hashing, new_hash_ring, get}
use mlx_mesh.Coordinator.Router.{Score}
use mlx_mesh.Coordinator.Router.Ranking.{
  ScoredCandidate, affinity_max_in_flight, better, place, sort_scored,
}

-- Two places of a list, one of them first.
abbrev pub At : List ScoredCandidate → ℕ → ScoredCandidate → Type 0
At cs i c = get_elem? cs i ≡ some c

better_asym : (s t : Score) → better s t ≡ true → better t s ≡ false
unfolding better
better_asym s t h = ground arith

-- The winner of two places is one of the two, and the other is not better.
abbrev pub IsDraw : List ScoredCandidate → ℕ → ℕ → ℕ → Type 0
IsDraw cs i j w =
    (c : ScoredCandidate) × (d : ScoredCandidate) × At cs w c
    × ((At cs i c × At cs j d) ⊎ (At cs i d × At cs j c))
    × (better d.score c.score ≡ false)

-- The node of the key, if it is one of the candidates and is not too busy.
abbrev pub IsPreferred : Hashing → String → List ScoredCandidate → ScoredCandidate → Type 0
IsPreferred hs key ranked c =
    (get hs (new_hash_ring hs (map (λ c. c.node.manifest.node_id) ranked)) key
      ≡ some c.node.manifest.node_id)
    × (ltb_ℤ (pos affinity_max_in_flight) c.node.in_flight ≡ false)
    × (key ≢ "")

-- The winner of a draw of two different places among the first three.
abbrev pub IsDrawn : List ScoredCandidate → ScoredCandidate → Type 0
IsDrawn ranked c =
    (d : ScoredCandidate) × (i : ℕ) × (j : ℕ) × (i ≢ j)
    × (i < 3)
    × (j < 3)
    × At ranked i c
    × At ranked j d
    × (better d.score c.score ≡ false)

-- No candidate scores better than the one before it.
abbrev pub IsNotBelow : ScoredCandidate → List ScoredCandidate → Type 0
IsNotBelow c [] = Unit
IsNotBelow c (d ∷ ds) = better d.score c.score ≡ false

abbrev pub IsBestFirst : List ScoredCandidate → Type 0
IsBestFirst [] = Unit
IsBestFirst (c ∷ cs) = IsNotBelow c cs × IsBestFirst cs

place-IsNotBelow :
    (c d : ScoredCandidate) (ds : List ScoredCandidate)
    → better c.score d.score ≡ false
    → IsNotBelow d ds
    → IsNotBelow d (place c ds)
unfolding place
place-IsNotBelow c d [] e h = e
place-IsNotBelow c d (x ∷ xs) e h = elim (Bool-cases (better x.score c.score)) [
  | inl later ↦ rw (later, place) h
  | inr here ↦ rw (here, place) e
]

place-IsBestFirst :
    (c : ScoredCandidate) (ds : List ScoredCandidate) → IsBestFirst ds → IsBestFirst (place c ds)
unfolding place
place-IsBestFirst c [] h = (tt, tt)
place-IsBestFirst c (d ∷ ds) h = elim (Bool-cases (better d.score c.score)) [
  | inl later ↦
      rw (later, place)
        (
          place-IsNotBelow c d ds (better_asym d.score c.score later) h.0,
          place-IsBestFirst c ds h.1,
        )
  | inr here ↦ rw (here, place) (here, h)
]

pub sort_scored-IsBestFirst : (cs : List ScoredCandidate) → IsBestFirst (sort_scored cs)
unfolding sort_scored
sort_scored-IsBestFirst [] = tt
sort_scored-IsBestFirst (c ∷ cs) = place-IsBestFirst c (sort_scored cs) (sort_scored-IsBestFirst cs)
