-- ===== src/Coordinator/Parallel/Route.antt =====
-- internal/coordinator/router.go: RouteWithDecomposition and what it calls.
use mlx_mesh.Base.{
  ℕ, zero, suc, ◌+◌, ◌/◌, ◌%◌, Bool, true, false, Option, none, some, List, [], ◌∷◌, ◌&&◌, not, map,
  String, str_eq, ltb, ◌==◌, if◌then◌else◌, length, get_elem?, take, keep, any,
}
use mlx_mesh.Base.Int.{ℤ, pos, negsuc}
use mlx_mesh.Base.Text.{codes}
use mlx_mesh.Coordinator.Registry.{CapabilityManifest, NodeWithLoad, Registry, candidates_with_load}
use mlx_mesh.Coordinator.Reservations.{NodeTarget}
use mlx_mesh.Coordinator.Parallel.Json.{Fields, end, Codec, compute_output_checksum}
use mlx_mesh.Coordinator.Parallel.Decompose.{
  BackgroundJob, SubTask, DecompositionModel, Texts, decomposed, refused, decompose_job,
  is_decomposition_worth_it, analytical_only,
}
use mlx_mesh.Coordinator.Parallel.Merge.{
  Dispatch, user, MergeInput, merged, merge_error, target_from_manifest, select_merge_node,
  execute_merge, first_unverified,
}
use mlx_mesh.Coordinator.Parallel.Verify.{should_use_parallel_verification}

-- `estimateTokens` of splitter.go, on the runes of a prompt.
unfoldable pub estimate_tokens : List ℕ → ℕ
estimate_tokens content =
    let n = length content in if n == 0 then 0 else if ltb (n / 4) 1 then 1 else n / 4

unfoldable pub estimate_analytical_prompt_tokens : List SubTask → ℕ
estimate_analytical_prompt_tokens [] = 0
estimate_analytical_prompt_tokens (t ∷ ts) =
    estimate_tokens (codes t.prompt) + estimate_analytical_prompt_tokens ts

-- All dependencies are among the completed sub-tasks.
unfoldable pub deps_done : List String → List String → Bool
deps_done completed [] = true
deps_done completed (d ∷ ds) = any (str_eq d) completed && deps_done completed ds

-- Rounds of 50 ms, with the sub-tasks that are completed in each.
unfoldable pub wait_rounds : ℕ → (ℕ → List String) → List String → Bool
wait_rounds zero seen deps = false
wait_rounds (suc k) seen deps =
    let later = wait_rounds k seen deps in if deps_done (seen k) deps then true else later

-- With a timeout of 30 s: 600 rounds.
unfoldable pub wait_for_dependencies : (ℕ → List String) → SubTask → Bool
wait_for_dependencies seen t =
    if length t.depends_on == 0 then true else wait_rounds 600 seen t.depends_on

-- `buildSubTaskJob` and the delivery of its job.
unfoldable pub dispatch_sub_task : Dispatch → NodeTarget → SubTask → Option (Option Fields)
dispatch_sub_task dispatch target t = dispatch target t.sub_task_id (user t.prompt)

-- The goroutines' shared state.
pub record Progress : Type 0 where
  pub results : List (Option Fields)
  pub errors : ℕ

unfoldable pub set_result : ℕ → Option Fields → List (Option Fields) → List (Option Fields)
set_result i r [] = []
set_result zero r (x ∷ xs) = r ∷ xs
set_result (suc i) r (x ∷ xs) = x ∷ set_result i r xs

-- The sub-task at an index and its node, `podNodes[i%len(podNodes)]`.
unfoldable pub work_item :
    List SubTask → List CapabilityManifest → ℕ → Option (SubTask × CapabilityManifest)
work_item tasks nodes i = elim (get_elem? tasks i) [
  | none ↦ none
  | some t ↦ elim (get_elem? nodes (i % length nodes)) [ none ↦ none | some n ↦ some (t, n) ]
]

module _ (tls : CapabilityManifest → String) (dispatch : Dispatch) where
  -- What the goroutine of an index does until it is done.
  unfoldable pub finish_item :
      (ℕ → ℕ → List String) → List SubTask → List CapabilityManifest → Progress → ℕ → Progress
  unfolding set_result
  finish_item seen tasks nodes p i = elim (work_item tasks nodes i) [
    | none ↦ p
    | some (t, n) ↦
        if wait_for_dependencies (seen i) t
        then (elim (dispatch_sub_task dispatch (target_from_manifest tls n) t) [
          | none ↦ record p { errors = suc p.errors }
          | some r ↦ record p { results = set_result i r p.results }
        ])
        else record p { errors = suc p.errors }
  ]

  unfoldable pub finish_all :
      (ℕ → ℕ → List String) → List SubTask → List CapabilityManifest → Progress → List ℕ → Progress
  finish_all seen tasks nodes p [] = p
  finish_all seen tasks nodes p (i ∷ is) =
      finish_all seen tasks nodes (finish_item seen tasks nodes p i) is

  -- The goroutines finish in the order `order`; none for an error.
  unfoldable pub dispatch_sub_tasks_in_parallel :
      (ℕ → ℕ → List String)
      → List ℕ
      → List SubTask
      → List CapabilityManifest
      → Option (List (Option Fields))
  dispatch_sub_tasks_in_parallel seen order tasks nodes =
      let start : Progress = record { results = map (λ t. none) tasks; errors = 0 } in
      let p = finish_all seen tasks nodes start order in
      if length nodes == 0 then none else if p.errors == 0 then some p.results else none

-- What a job comes to: `single_node` is the call of `DispatchFastLane`.
pub data RouteOutcome : Type 0 where
  single_node wrong_lane nil_result : RouteOutcome
  failed_verification merge_failure : RouteOutcome
  routed : Option Fields → RouteOutcome

-- The candidates that may have a part of the job.
unfoldable pub pod_nodes : ℕ → BackgroundJob → Registry → List CapabilityManifest
pod_nodes now job registry =
    let candidates =
      candidates_with_load now registry job.spec.model_id job.spec.quantization_required in
    map (λ (c : NodeWithLoad). c.manifest)
      (if str_eq job.spec.sensitivity "high_requires_attestation"
        then keep (λ c. c.enclave_attested) candidates
        else candidates)

-- `MaxParallelNodes`, where it is positive.
unfoldable pub capped : ℤ → List SubTask → List SubTask
capped (negsuc _) tasks = tasks
capped (pos m) tasks = if ltb 0 m && ltb m (length tasks) then take m tasks else tasks

-- No result is nil.
unfoldable pub all_results : List (Option Fields) → Option (List Fields)
all_results [] = some []
all_results (none ∷ rs) = none
all_results (some r ∷ rs) = elim (all_results rs) [ none ↦ none | some xs ↦ some (r ∷ xs) ]

unfoldable pub same_checksum : Option String → Option String → Bool
same_checksum (some a) (some b) = str_eq a b
same_checksum (some a) none = false
same_checksum none b = false

unfoldable pub merge_inputs : Bool → List SubTask → List Fields → List MergeInput
merge_inputs ok (t ∷ ts) (r ∷ rs) =
    record { sub_task_id = t.sub_task_id; result = r; position = ""; verification_passed = ok }
    ∷ merge_inputs ok ts rs
merge_inputs ok [] rs = []
merge_inputs ok (t ∷ ts) [] = []

-- A nil map has the checksum of one without fields.
unfoldable pub or_empty : Option Fields → Fields
or_empty none = end
or_empty (some fields) = fields

module _ (tls : CapabilityManifest → String) (dispatch : Dispatch) (codec : Codec) where
  -- The replica of the first sub-task, on the second node, agrees.
  unfoldable pub replica_agrees : SubTask → CapabilityManifest → Fields → Bool
  unfolding same_checksum or_empty
  replica_agrees t n result = elim (dispatch_sub_task dispatch (target_from_manifest tls n) t) [
    | none ↦ false
    | some replica ↦
        same_checksum (compute_output_checksum codec result)
          (compute_output_checksum codec (or_empty replica))
  ]

  unfoldable pub verification_of :
      BackgroundJob → List SubTask → List CapabilityManifest → List Fields → Bool
  verification_of job (t ∷ ts) (n ∷ m ∷ ns) (r ∷ rs) =
      if should_use_parallel_verification job (length (n ∷ m ∷ ns))
        (estimate_analytical_prompt_tokens (t ∷ ts))
      then replica_agrees t m r
      else true
  verification_of job _ _ _ = true

  -- From the verification of the results to the reply of the merge node.
  unfoldable pub verify_and_merge :
      BackgroundJob → List SubTask → List CapabilityManifest → List Fields → RouteOutcome
  verify_and_merge job tasks nodes results =
      let inputs = merge_inputs (verification_of job tasks nodes results) tasks results in
      elim (first_unverified inputs) [
        | some id ↦ failed_verification
        | none ↦
            elim (execute_merge dispatch inputs job.spec (select_merge_node tls nodes inputs)) [
              | merge_error e ↦ merge_failure
              | merged m ↦ routed m.merged_output
            ]
      ]

  unfoldable pub fan_out :
      (ℕ → ℕ → List String)
      → List ℕ
      → BackgroundJob
      → List SubTask
      → List CapabilityManifest
      → RouteOutcome
  fan_out seen order job tasks nodes =
      elim (dispatch_sub_tasks_in_parallel tls dispatch seen order tasks nodes) [
        | none ↦ single_node
        | some rs ↦ elim (all_results rs) [
          | none ↦ nil_result
          | some results ↦ verify_and_merge job tasks nodes results
        ]
      ]

  unfoldable pub route_with_decomposition :
      Texts
      → Option DecompositionModel
      → (ℕ → ℕ → List String)
      → List ℕ
      → ℕ
      → Registry
      → BackgroundJob
      → RouteOutcome
  route_with_decomposition texts model seen order now registry job =
      if str_eq job.lane "fast" then wrong_lane else elim (decompose_job texts job model) [
        | refused e ↦ single_node
        | decomposed d ↦
            if not (is_decomposition_worth_it d 50)
            then single_node
            else if length (pod_nodes now job registry) == 0
            then single_node
            else fan_out seen order job
                (analytical_only (capped job.max_parallel_nodes d.sub_tasks))
                (pod_nodes now job registry)
      ]
