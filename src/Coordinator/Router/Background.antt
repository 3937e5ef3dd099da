-- ===== src/Coordinator/Router/Background.antt =====
-- internal/coordinator/router.go: the nodes that a background job is assigned to, and the node that
-- serves a cycle of it.
pub mod Failover
mod Tests
use mlx_mesh.Base.{
  ℕ, suc, ◌+◌, Bool, true, false, Option, none, some, List, [], ◌∷◌, String, map, ltb, ◌==◌,
  if◌then◌else◌, length, take,
}
use mlx_mesh.Base.Int.{ℤ, pos, negsuc}
use mlx_mesh.Base.Dict.{Dict, lookup, insert}
use mlx_mesh.Coordinator.Registry.{Registry, is_live, candidates_with_load}
use mlx_mesh.Coordinator.Router.{JobSpec}
use mlx_mesh.Coordinator.Router.Ranking.{ScoredCandidate, scored, sort_scored}

pub record BackgroundAssignment : Type 0 where
  pub job_id : String
  pub primary : String
  pub backups : List String
  pub job_spec : JobSpec

-- `make` with a negative capacity panics, and so does the largest int: `1 + depth` wraps around below
-- every length, and the capacity is out of range.
pub data Assignment : Type 0 where
  assigned : BackgroundAssignment → Assignment
  too_few_nodes panics : Assignment

abbrev pub node_ids : List ScoredCandidate → List String
node_ids cs = map (λ c. c.node.manifest.node_id) cs

abbrev pub max_int : ℕ
max_int = 9223372036854775807

unfoldable pub assign_ranked : JobSpec → ℤ → List ScoredCandidate → Assignment
assign_ranked job (negsuc _) ranked = panics
assign_ranked job (pos depth) [] = if depth == max_int then panics else too_few_nodes
assign_ranked job (pos depth) (c ∷ cs) =
    if depth == max_int
    then panics
    else if ltb (length (c ∷ cs)) (1 + depth)
    then too_few_nodes
    else assigned (record {
      job_id = job.job_id;
      primary = c.node.manifest.node_id;
      backups = node_ids (take depth cs);
      job_spec = job;
    })

unfoldable pub assign_background_job : ℕ → JobSpec → Registry → Assignment
assign_background_job now job registry = assign_ranked job job.redundancy_depth (
    sort_scored
      (scored job (candidates_with_load now registry job.model_id job.quantization_required)))

unfoldable pub first_live : ℕ → Registry → List String → Option String
first_live now registry [] = none
first_live now registry (id ∷ ids) =
    let rest = first_live now registry ids in if is_live now registry id then some id else rest

-- The node, and whether it is the primary; none is the error that all are down.
unfoldable pub resolve_for_cycle : ℕ → BackgroundAssignment → Registry → Option (String × Bool)
resolve_for_cycle now a registry =
    if is_live now registry a.primary
    then some (a.primary, true)
    else elim (first_live now registry a.backups) [ none ↦ none | some id ↦ some (id, false) ]

abbrev pub AssignmentStore : Type 0
AssignmentStore = Dict BackgroundAssignment

unfoldable pub save : AssignmentStore → BackgroundAssignment → AssignmentStore
save s a = insert a.job_id a s

unfoldable pub get : AssignmentStore → String → Option BackgroundAssignment
get s job_id = lookup job_id s
