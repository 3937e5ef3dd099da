-- ===== src/Coordinator/Parallel/Decompose.antt =====
-- internal/coordinator/decomposer.go. Confidences are hundredths. `fmt`'s %02d, and the prompts, are
-- arguments, and so is the model of a classifier.
use mlx_mesh.Base.{
  ℕ, suc, ◌+◌, ◌*◌, Bool, true, false, Option, none, some, List, [], ◌∷◌, ◌++◌, String, str_eq, map,
  not, ltb, ◌==◌, ◌||◌, if◌then◌else◌, length, any, keep,
}
use Prim.Native.String
use mlx_mesh.Base.Int.{ℤ}
use mlx_mesh.Base.Text.{codes, to_lower, contains}
use mlx_mesh.Coordinator.Router.{JobSpec}

-- internal/protocol/jobspec.go, with the fields that decomposition reads.
pub record BackgroundJob : Type 0 where
  pub spec : JobSpec
  pub lane : String
  pub allow_decomposition : Bool
  pub max_parallel_nodes : ℤ
  pub require_deterministic_output : Bool

pub data SubTaskType : Type 0 where
  schema_lookup anomaly_detection trend_analysis query_optimization summarization : SubTaskType
  classification merge : SubTaskType

pub record SubTask : Type 0 where
  pub sub_task_id : String
  pub parent_job_id : String
  pub model_id : String
  pub sub_task_type : SubTaskType
  pub prompt : String
  pub depends_on : List String

pub record DecomposedJob : Type 0 where
  pub original_job_id : String
  pub sub_tasks : List SubTask
  pub confidence_score : ℕ
  pub classifier_used : String

abbrev pub is_merge : SubTaskType → Bool
is_merge merge = true
is_merge schema_lookup = false
is_merge anomaly_detection = false
is_merge trend_analysis = false
is_merge query_optimization = false
is_merge summarization = false
is_merge classification = false

-- An answer of a classifier: `unavailable` is ErrNotImplemented.
pub data Intent : Type 0 where
  intent : List SubTaskType → ℕ → Intent
  unavailable broken : Intent

abbrev pub DecompositionModel : Type 0
DecompositionModel = String → Intent

-- Some keyword occurs.
mentions : List ℕ → List String → Bool
mentions lower words = any (λ w. contains lower (codes w)) words

matched_if : Bool → SubTaskType → List SubTaskType
matched_if b t = if b then t ∷ [] else []

unfoldable pub matched_types : List ℕ → List SubTaskType
unfolding mentions matched_if
matched_types lower =
    matched_if (mentions lower ("schema" ∷ "table structure" ∷ "column" ∷ "data type" ∷ []))
      schema_lookup
    ++ (matched_if (mentions lower ("anomal" ∷ "outlier" ∷ "unusual" ∷ "spike" ∷ "deviation" ∷ []))
          anomaly_detection
        ++ (matched_if
              (mentions lower ("trend" ∷ "over time" ∷ "growth" ∷ "forecast" ∷ "historical" ∷ []))
              trend_analysis
            ++ (matched_if
                  (mentions lower
                    ("optimis" ∷ "optimiz" ∷ "slow query" ∷ "index" ∷ "execution plan" ∷ []))
                  query_optimization
                ++ (matched_if (mentions lower ("summari" ∷ "tldr" ∷ "key points" ∷ "brief" ∷ []))
                      summarization
                    ++ matched_if (mentions lower ("classif" ∷ "categor" ∷ "label" ∷ "detect" ∷ []))
                        classification))))

unfoldable pub keyword_heuristic_classify : String → List SubTaskType × ℕ
keyword_heuristic_classify query =
    let matched = matched_types (to_lower (codes query)) in
    if length matched == 0
    then ([], 0)
    else if ltb 2 (length matched)
    then (matched, 45)
    else (matched, 65)

-- None for an error of the model.
unfoldable pub classify_query_intent :
    String → Option DecompositionModel → Option (List SubTaskType × ℕ)
classify_query_intent query none = some (keyword_heuristic_classify query)
classify_query_intent query (some model) = elim (model query) [
  | intent types confidence ↦ some (types, confidence)
  | unavailable ↦ some (keyword_heuristic_classify query)
  | broken ↦ none
]

unfoldable pub build_dependency_dag : List SubTaskType → List (SubTaskType × SubTaskType)
build_dependency_dag ts = map (λ t. (t, merge)) (keep (λ t. not (is_merge t)) ts)

-- The texts that `DecomposeJob` formats: the identifier of the sub-task at an index, and its prompt.
pub record Texts : Type 0 where
  pub sub_id : String → ℕ → SubTaskType → String
  pub prompt_of : SubTaskType → String → String

pub data DecomposeError : Type 0 where
  not_allowed fast_lane classifier_failed not_decomposable : DecomposeError

-- The loop over the types, from an index.
unfoldable pub analytical : Texts → JobSpec → ℕ → List SubTaskType → List SubTask
analytical texts job i [] = []
analytical texts job i (t ∷ ts) =
    record {
      sub_task_id = texts.sub_id job.job_id i t;
      parent_job_id = job.job_id;
      model_id = job.model_id;
      sub_task_type = t;
      prompt = texts.prompt_of t job.job_id;
      depends_on = [];
    }
    ∷ analytical texts job (suc i) ts

unfoldable pub merge_task : JobSpec → List SubTask → SubTask
merge_task job tasks = record {
  sub_task_id = String.◌++◌ job.job_id "-sub-merge";
  parent_job_id = job.job_id;
  model_id = job.model_id;
  sub_task_type = merge;
  prompt = "Synthesize the sub-task outputs into a single coherent response.";
  depends_on = map (λ t. t.sub_task_id) tasks;
}

abbrev pub used_classifier : Option DecompositionModel → String
used_classifier none = "keyword_heuristic"
used_classifier (some model) = "bert_classifier"

pub data Decomposition : Type 0 where
  decomposed : DecomposedJob → Decomposition
  refused : DecomposeError → Decomposition

unfoldable pub decompose_job : Texts → BackgroundJob → Option DecompositionModel → Decomposition
decompose_job texts job model =
    if not job.allow_decomposition
    then refused not_allowed
    else if str_eq job.lane "fast"
    then refused fast_lane
    else elim (classify_query_intent job.spec.job_id model) [
      | none ↦ refused classifier_failed
      | some (types, confidence) ↦
          if (length types == 0) || ltb confidence 50
          then refused not_decomposable
          else (let tasks = analytical texts job.spec 0 types in
              decomposed (record {
                original_job_id = job.spec.job_id;
                sub_tasks = tasks ++ (merge_task job.spec tasks ∷ []);
                confidence_score = confidence;
                classifier_used = used_classifier model;
              }))
    ]

unfoldable pub analytical_only : List SubTask → List SubTask
analytical_only tasks = keep (λ t. not (is_merge t.sub_task_type)) tasks

-- The overhead in milliseconds; 2000 / n + overhead < 2000 * 0.9, without the division.
unfoldable pub is_decomposition_worth_it : DecomposedJob → ℕ → Bool
is_decomposition_worth_it d coordination_overhead =
    let overhead : ℕ = if coordination_overhead == 0 then 50 else coordination_overhead in
    let n = length (analytical_only d.sub_tasks) in
    if ltb n 2 then false else ltb (2000 + overhead * n) (1800 * n)
