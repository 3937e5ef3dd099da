-- ===== src/Coordinator/Parallel/Tests.antt =====
-- A job with two sub-tasks on two nodes.
use mlx_mesh.Base.{
  ℕ, ◌++◌, ◌≤◌, ◌≡◌, ◌≢◌, refl, true, false, Option, none, some, List, [], ◌∷◌, map, String, str_eq,
  arith, length, get_elem?, ◌==◌, if◌then◌else◌, keep,
}
use mathlib.Core.List.{reverse}
use mlx_mesh.Base.Int.{pos}
use mlx_mesh.Base.Text.{contains, has_prefix, to_lower}
use mlx_mesh.Coordinator.Registry.{CapabilityManifest, Registry, new_entry}
use mlx_mesh.Coordinator.Parallel.Json.{Fields, text, end, field, Codec}
use mlx_mesh.Coordinator.Parallel.Decompose.{
  BackgroundJob, SubTask, SubTaskType, schema_lookup, trend_analysis, DecomposedJob, Texts,
  decomposed, decompose_job, classify_query_intent, merge_task, analytical,
  keyword_heuristic_classify, matched_types,
}
use mlx_mesh.Coordinator.Parallel.Merge.{
  Dispatch, user, merging, MergeInput, order_inputs, sections, target_from_manifest,
}
use mlx_mesh.Coordinator.Parallel.Route.{
  dispatch_sub_tasks_in_parallel, finish_all, finish_item, work_item, wait_for_dependencies,
  dispatch_sub_task,
}
use mlx_mesh.Coordinator.Parallel.Plan.{
  IsPlan, decompose_job-IsPlan, is_left, is_other, order_inputs_lem,
}
use mlx_mesh.Coordinator.Parallel.Fanout.{Answers, dispatch_sub_tasks-Answers}

abbrev manifest : CapabilityManifest
manifest = record {
  node_id = "a";
  cluster_signature = "";
  models =
      record { model_id = "llama"; quantization = "q4"; max_context_tokens = 4096; loaded = true }
      ∷ [];
  measured_signature = none;
  reachability_endpoint = "http://a";
  compute_cycles_price = none;
  has_secure_enclave = true;
  ecdh_public_key = "";
  simulated = false;
  pull_delivery = false;
  declared_memory_gb = 16000000;
  declared_memory_cap_pct = 500000;
}

abbrev other : CapabilityManifest
other = record manifest { node_id = "b"; reachability_endpoint = "http://b" }

abbrev nodes : Registry
nodes = ("a", new_entry 0 manifest "a") ∷ ("b", new_entry 0 other "b") ∷ []

abbrev job : BackgroundJob
job = record {
  spec = record {
    job_id = "Schema trend";
    model_id = "llama";
    quantization_required = "";
    sensitivity = "";
    max_price_per_unit = 0;
    redundancy_depth = pos 0;
  };
  lane = "background";
  allow_decomposition = true;
  max_parallel_nodes = pos 0;
  require_deterministic_output = true;
}

abbrev texts : Texts
texts = record {
  sub_id = λ id i t. if i == 0 then "first" else "second";
  prompt_of = λ t id. "Explain.";
}

abbrev no_tls : CapabilityManifest → String
no_tls m = ""

-- Each node says who it is; the merge node has the last word.
abbrev dispatch : Dispatch
dispatch target id (user prompt) = some (some (field "node" (text target.node_id) end))
dispatch target id (merging sections job_id) =
    some (some (field "merged" (text target.node_id) end))

abbrev codec : Codec
codec = record {
  marshal_key = λ k. [];
  marshal = λ v. some [];
  before = λ a b. false;
  digest = λ b. "";
}

abbrev unseen : ℕ → ℕ → List String
unseen i k = []

abbrev planned : DecomposedJob
planned = record {
  original_job_id = "Schema trend";
  sub_tasks = tasks ++ (merge_task job.spec tasks ∷ []);
  confidence_score = 65;
  classifier_used = "keyword_heuristic";
}
  where
    tasks : List SubTask
    tasks = analytical texts job.spec 0 (schema_lookup ∷ trend_analysis ∷ [])

job_planned : decompose_job texts job none ≡ decomposed planned
unfolding decompose_job classify_query_intent keyword_heuristic_classify matched_types contains
    to_lower has_prefix
job_planned = refl

decompose_job-IsPlan_example :
    (job.allow_decomposition ≡ true)
    × (str_eq job.lane "fast" ≡ false)
    × (types : List SubTaskType) × (confidence : ℕ) × (classify_query_intent job.spec.job_id none
        ≡ some (types, confidence))
    × (50 ≤ confidence)
    × (types ≢ [])
    × IsPlan job.spec types planned.sub_tasks
decompose_job-IsPlan_example = decompose_job-IsPlan texts job none planned job_planned

abbrev tasks : List SubTask
tasks = analytical texts job.spec 0 (schema_lookup ∷ trend_analysis ∷ [])

abbrev pod : List CapabilityManifest
pod = manifest ∷ other ∷ []

abbrev answers : List (Option Fields)
answers = some (field "node" (text "a") end) ∷ some (field "node" (text "b") end) ∷ []

-- The second sub-task is done first.
answers_in :
    dispatch_sub_tasks_in_parallel no_tls dispatch unseen (1 ∷ 0 ∷ []) tasks pod ≡ some answers
unfolding dispatch_sub_tasks_in_parallel finish_all finish_item work_item analytical
    wait_for_dependencies dispatch_sub_task target_from_manifest
answers_in = refl

dispatch_sub_tasks-Answers_example :
    (length answers ≡ length tasks)
    × (r : Option Fields) × (get_elem? answers 1 ≡ some r)
    × Answers no_tls dispatch unseen tasks pod 1 r
unfolding analytical
dispatch_sub_tasks-Answers_example =
    dispatch_sub_tasks-Answers no_tls dispatch unseen tasks pod (1 ∷ 0 ∷ []) answers 1 answers_in
      (omega arith) refl

abbrev reply : Option Fields
reply = some (field "merged" (text "a") end)

abbrev input : String → String → MergeInput
input id position = record {
  sub_task_id = id;
  result = end;
  position = position;
  verification_passed = true;
}

-- The two results of the left change places.
abbrev four : List MergeInput
four = input "1" "left" ∷ input "2" "right" ∷ input "3" "left" ∷ input "4" "" ∷ []

order_inputs_lem_example : order_inputs [] four ≡ reverse (keep is_left four) ++ keep is_other four
order_inputs_lem_example = order_inputs_lem four

lefts_swap : map (λ r. r.sub_task_id) (order_inputs [] four) ≡ "3" ∷ "1" ∷ "2" ∷ "4" ∷ []
unfolding order_inputs
lefts_swap = refl
