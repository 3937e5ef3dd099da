-- ===== src/Coordinator/Router/Ranking.antt =====
-- internal/coordinator/router.go: rankCandidates with its affinity and its random choice, and
-- PickBestNode. A message is its role and its content, "" where a field is missing or is no text. A
-- draw of rand.IntN(n) is `a % n` of an argument `a`. Among equal scores, which sort.Slice may order as
-- it likes, the model keeps the order of the candidates.
pub mod Order
pub mod First
use Prim.Native.String.{◌++◌ as append}
use mlx_mesh.Base.{
  ℕ, zero, suc, ◌+◌, ◌-◌, ◌*◌, ◌%◌, Bool, true, false, Option, none, some, List, [], ◌∷◌, String,
  map, str_eq, ltb, leb, ◌==◌, if◌then◌else◌, length, get_elem?, keep, not, ◌&&◌,
}
use mlx_mesh.Base.Int.{ℤ, pos, ltb_ℤ}
use mlx_mesh.Coordinator.Registry.{NodeWithLoad, Registry, candidates_with_load}
use mlx_mesh.Coordinator.Ring.{Hashing, new_hash_ring, get}
use mlx_mesh.Coordinator.Router.{JobSpec, Score, score_of}

pub record Message : Type 0 where
  pub role : String
  pub content : String

pub record ScoredCandidate : Type 0 where
  pub score : Score
  pub node : NodeWithLoad

abbrev pub power_of_two_window : ℕ
power_of_two_window = 3

abbrev pub affinity_max_in_flight : ℕ
affinity_max_in_flight = 4

-- The contents of the system messages, one after the other.
unfoldable pub system_prefix : List Message → String
system_prefix [] = ""
system_prefix (m ∷ ms) =
    let rest = system_prefix ms in if str_eq m.role "system" then append m.content rest else rest

unfoldable pub first_content : List Message → String
first_content [] = ""
first_content (m ∷ ms) = m.content

-- `cut` is `prefix[:affinityPrefixChars]` where the prefix has more bytes, else the prefix.
unfoldable pub prompt_affinity_key : (String → String) → JobSpec → List Message → String
prompt_affinity_key cut job messages =
    let prefix : String =
      (if str_eq (system_prefix messages) ""
        then first_content messages
        else system_prefix messages) in
    if str_eq prefix "" then "" else append job.model_id (append "\0" (cut prefix))

-- `a > b` of two fractions.
unfoldable pub better : Score → Score → Bool
better a b = ltb (b.num * a.den) (a.num * b.den)

-- The candidates with a score, and their order, best first.
unfoldable pub scored : JobSpec → List NodeWithLoad → List ScoredCandidate
scored job [] = []
scored job (n ∷ ns) =
    let rest = scored job ns in
    elim (score_of job n) [ none ↦ rest | some s ↦ record { score = s; node = n } ∷ rest ]

unfoldable pub place : ScoredCandidate → List ScoredCandidate → List ScoredCandidate
place c [] = c ∷ []
place c (d ∷ ds) = let rest = place c ds in if better d.score c.score then d ∷ rest else c ∷ d ∷ ds

unfoldable pub sort_scored : List ScoredCandidate → List ScoredCandidate
sort_scored [] = []
sort_scored (c ∷ cs) = place c (sort_scored cs)

abbrev pub set : List ScoredCandidate → ℕ → ScoredCandidate → List ScoredCandidate
set [] i c = []
set (d ∷ ds) zero c = c ∷ ds
set (d ∷ ds) (suc i) c = d ∷ set ds i c

-- `ranked[0], ranked[i] = ranked[i], ranked[0]`
unfoldable pub swap_front : List ScoredCandidate → ℕ → List ScoredCandidate
swap_front [] i = []
swap_front (c ∷ cs) zero = c ∷ cs
swap_front (c ∷ cs) (suc i) = elim (get_elem? cs i) [ none ↦ c ∷ cs | some d ↦ d ∷ set cs i c ]

-- The loop of `promoteAffinityNode`: where the preferred node is, unless it is too busy.
unfoldable pub affinity_index : String → List ScoredCandidate → ℕ → Option ℕ
affinity_index preferred [] i = none
affinity_index preferred (c ∷ cs) i =
    let rest = affinity_index preferred cs (suc i) in
    if str_eq c.node.manifest.node_id preferred
    then (if ltb_ℤ (pos affinity_max_in_flight) c.node.in_flight then none else some i)
    else rest

unfoldable pub promote_affinity_node : Hashing → String → List ScoredCandidate → Option ℕ
promote_affinity_node hs key ranked =
    let preferred = get hs (new_hash_ring hs (map (λ c. c.node.manifest.node_id) ranked)) key in
    if str_eq key ""
    then none
    else if ltb (length ranked) 2
    then none
    else elim preferred [ none ↦ none | some id ↦ affinity_index id ranked 0 ]

unfoldable pub two_random_distinct_indices : ℕ → ℕ → ℕ → ℕ × ℕ
two_random_distinct_indices a b n =
    let i : ℕ = a % n in let j : ℕ = b % (n - 1) in (i, if leb i j then suc j else j)

-- The better scored of two places.
unfoldable pub winner_of : List ScoredCandidate → ℕ → ℕ → ℕ
winner_of ranked i j = elim (get_elem? ranked i) [
  | none ↦ i
  | some c ↦ elim (get_elem? ranked j) [
    | none ↦ i
    | some d ↦ if better d.score c.score then j else i
  ]
]

unfoldable pub power_of_two : ℕ → ℕ → List ScoredCandidate → List ScoredCandidate
power_of_two a b ranked =
    let n = length ranked in
    let window : ℕ = if leb n power_of_two_window then n else power_of_two_window in
    let (i, j) = two_random_distinct_indices a b window in
    if ltb 1 n then swap_front ranked (winner_of ranked i j) else ranked

unfoldable pub ranked_for :
    Hashing
    → (String → String)
    → ℕ
    → ℕ
    → JobSpec
    → List Message
    → List NodeWithLoad
    → List ScoredCandidate
ranked_for hs cut a b job messages candidates =
    let ranked = sort_scored (scored job candidates) in
    elim (promote_affinity_node hs (prompt_affinity_key cut job messages) ranked) [
      | some i ↦ swap_front ranked i
      | none ↦ power_of_two a b ranked
    ]

unfoldable pub rank_candidates :
    Hashing
    → (String → String)
    → ℕ
    → ℕ
    → List NodeWithLoad
    → JobSpec
    → List Message
    → List NodeWithLoad
rank_candidates hs cut a b candidates job messages =
    map (λ c. c.node) (ranked_for hs cut a b job messages candidates)

unfoldable pub filter_push_only : List NodeWithLoad → List NodeWithLoad
filter_push_only ranked = keep (λ n. not n.manifest.pull_delivery) ranked

-- none is the error "no eligible nodes available".
unfoldable pub pick_best_node :
    Hashing → (String → String) → ℕ → ℕ → ℕ → JobSpec → Registry → Option NodeWithLoad
pick_best_node hs cut a b now job registry =
    elim (rank_candidates hs cut a b
      (candidates_with_load now registry job.model_id job.quantization_required) job []) [
        | [] ↦ none
        | n ∷ _ ↦ some n
      ]
