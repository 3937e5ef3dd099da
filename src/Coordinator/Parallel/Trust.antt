-- ===== src/Coordinator/Parallel/Trust.antt =====
-- How RouteWithDecomposition of internal/coordinator/router.go comes to an answer.
use mlx_mesh.Base.{
  ℕ, ◌<◌, ◌≡◌, ◌≢◌, take, get_elem?, true, Option, some, List, map, not, String, length, All, keep,
  ◌⊎◌,
}
use mlx_mesh.Base.Int.{pos, ◌≤ℤ◌}
use mlx_mesh.Coordinator.Registry.{CapabilityManifest, NodeWithLoad, Registry}
use mlx_mesh.Coordinator.Parallel.Json.{Fields, Codec, content_of}
use mlx_mesh.Coordinator.Parallel.Decompose.{BackgroundJob, SubTask, is_merge}
use mlx_mesh.Coordinator.Parallel.Merge.{Dispatch, Section, merging, target_from_manifest}
use mlx_mesh.Coordinator.Parallel.Route.{dispatch_sub_tasks_in_parallel}
use mlx_mesh.Coordinator.Parallel.Replica.{IsReplicated}

-- Every node of a sensitive job is the one of an attested candidate.
abbrev pub IsAttested : BackgroundJob → List CapabilityManifest → Type 0
IsAttested job nodes =
    (job.spec.sensitivity ≢ "high_requires_attestation")
    ⊎ ((cs : List NodeWithLoad) × (nodes ≡ map (λ c. c.manifest) cs)
        × All (λ c. c.enclave_attested ≡ true) cs)

-- The sub-tasks that are sent out: of the first ones within a positive limit, or else of all, those
-- that are not the merge.
abbrev pub IsShare : BackgroundJob → List SubTask → List SubTask → Type 0
IsShare job all tasks =
    ((n : ℕ) × (job.max_parallel_nodes ≡ pos n)
      × (0 < n)
      × (tasks ≡ keep (λ t. not (is_merge t.sub_task_type)) (take n all)))
    ⊎ ((job.max_parallel_nodes ≤ℤ pos 0) × (tasks ≡ keep (λ t. not (is_merge t.sub_task_type)) all))

module _ (tls : CapabilityManifest → String) (dispatch : Dispatch) (codec : Codec) where
  -- How a routed job came to its answer: each sub-task has a result, the replica agreed where it was
  -- asked for, and a node of the job was sent the content of all these results, in their order, and
  -- replied.
  pub record IsVerified (order : List ℕ) (seen : ℕ → ℕ → List String) (job : BackgroundJob)
      (tasks : List SubTask) (nodes : List CapabilityManifest) (out : Option Fields) : Type 0 where
    pub results : List Fields
    pub answered :
        dispatch_sub_tasks_in_parallel tls dispatch seen order tasks nodes ≡ some (map some results)
    pub complete : length results ≡ length tasks
    pub replicated : IsReplicated tls dispatch codec job tasks nodes results
    pub node : CapabilityManifest
    pub place : ℕ
    pub listed : get_elem? nodes place ≡ some node
    pub parts : List Section
    pub contents : map (λ s. s.content) parts ≡ map content_of results
    pub combined :
        dispatch (target_from_manifest tls node) job.spec.job_id (merging parts job.spec.job_id)
        ≡ some out
