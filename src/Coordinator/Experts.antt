-- ===== src/Coordinator/Experts.antt =====
-- internal/coordinator/moe_planner.go: which node hosts which experts of a model. Memory is in
-- millionths of a GB and the share of it in millionths, so that capacities and quotas are exact where
-- the source rounds floats. A count stands in its node's share, where the source keeps it in a second
-- slice and finds it by index.
pub mod Shares
pub mod Plan
mod Tests
use mlx_mesh.Base.{
  ℕ, zero, suc, ◌+◌, ◌-◌, ◌*◌, ◌/◌, ◌%◌, ◌++◌, Bool, true, false, Option, none, some, List, [], ◌∷◌,
  String, str_eq, ltb, leb, ◌==◌, any, map, if◌then◌else◌, length,
}
use mlx_mesh.Base.Dict.{Dict, insert}
use Prim.Native.Nat.{Ordering}
use Prim.Native.String.{compare}

pub record Candidate : Type 0 where
  pub node_id : String
  pub declared_memory_gb : ℕ
  pub declared_memory_cap_pct : ℕ

-- A node's part of the experts: how many, and what its quota has over that number, as a numerator over
-- the total capacity.
pub record Share : Type 0 where
  pub node_id : String
  pub count : ℕ
  pub frac : ℕ

unfoldable pub capacity : Candidate → ℕ
capacity c =
    let cap : ℕ = c.declared_memory_gb * c.declared_memory_cap_pct in
    if cap == 0 then 1000000000000 else cap

unfoldable pub total_capacity : List Candidate → ℕ
total_capacity [] = 0
total_capacity (c ∷ cs) = capacity c + total_capacity cs

-- Each node's quota, rounded down.
unfoldable pub shares : ℕ → ℕ → List Candidate → List Share
shares total_experts total_cap [] = []
shares total_experts total_cap (c ∷ cs) =
    record {
      node_id = c.node_id;
      count = capacity c * total_experts / total_cap;
      frac = (capacity c * total_experts) % total_cap;
    }
    ∷ shares total_experts total_cap cs

unfoldable pub count_sum : List Share → ℕ
count_sum [] = 0
count_sum (s ∷ ss) = s.count + count_sum ss

-- `sort.Slice` by the remainder, largest first, and by the node; equal ones come in any order in the
-- source.
unfoldable pub place_by : (Share → Share → Bool) → Share → List Share → List Share
place_by before s [] = s ∷ []
place_by before s (t ∷ ts) =
    let rest = place_by before s ts in if before t s then t ∷ rest else s ∷ t ∷ ts

unfoldable pub sort_by : (Share → Share → Bool) → List Share → List Share
sort_by before [] = []
sort_by before (s ∷ ss) = place_by before s (sort_by before ss)

abbrev pub larger_frac : Share → Share → Bool
larger_frac a b = ltb b.frac a.frac

abbrev pub text_less : String → String → Bool
text_less a b = elim (compare a b) [
  | Ordering.lt ↦ true
  | Ordering.eq ↦ false
  | Ordering.gt ↦ false
]

abbrev pub earlier_node : Share → Share → Bool
earlier_node a b = text_less a.node_id b.node_id

-- One expert more for each of the first; none where the index would leave the slice.
unfoldable pub bump : ℕ → List Share → Option (List Share)
bump zero ss = some ss
bump (suc k) [] = none
bump (suc k) (s ∷ ss) = elim (bump k ss) [
  | none ↦ none
  | some rest ↦ some (record s { count = suc s.count } ∷ rest)
]

unfoldable pub experts_from : ℕ → ℕ → List ℕ
experts_from first zero = []
experts_from first (suc n) = first ∷ experts_from (suc first) n

abbrev pub Assignment : Type 0
Assignment = Dict (List ℕ)

unfoldable pub assign_from : ℕ → List Share → Assignment → Assignment
assign_from first [] a = a
assign_from first (s ∷ ss) a =
    assign_from (first + s.count) ss
      (if s.count == 0 then a else insert s.node_id (experts_from first s.count) a)

pub data PlanResult : Type 0 where
  no_candidates no_experts panics : PlanResult
  planned : Assignment → PlanResult

unfoldable pub final_shares : ℕ → List Candidate → Option (List Share)
final_shares total_experts candidates =
    let floors = shares total_experts (total_capacity candidates) candidates in
    bump (total_experts - count_sum floors) (sort_by larger_frac floors)

unfoldable pub plan_moe_expert_assignment : ℕ → List Candidate → PlanResult
plan_moe_expert_assignment total_experts [] = no_candidates
plan_moe_expert_assignment total_experts (c ∷ cs) =
    if total_experts == 0 then no_experts else elim (final_shares total_experts (c ∷ cs)) [
      | none ↦ panics
      | some ss ↦ planned (assign_from 0 (sort_by earlier_node ss) [])
    ]

-- The search of `RouteTokenToExpertNode` for the first activated expert.
unfoldable pub node_of_expert : ℕ → Assignment → Option String
node_of_expert target [] = none
node_of_expert target (e ∷ a) =
    let rest = node_of_expert target a in if any (λ x. x == target) e.1 then some e.0 else rest

-- none is an error: no expert is activated, or no node has it.
unfoldable pub route_token_to_expert_node : List ℕ → Assignment → Option String
route_token_to_expert_node [] a = none
route_token_to_expert_node (target ∷ rest) a = node_of_expert target a
