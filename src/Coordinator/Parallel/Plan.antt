-- ===== src/Coordinator/Parallel/Plan.antt =====
-- What a decomposed job looks like, and in which order results are merged.
use mlx_mesh.Base.{
  ℕ, suc, ◌≤◌, ◌≡◌, ◌≢◌, refl, sym, ap, ◌∙◌, inl, inr, Bool, true, false, Option, none, some, List,
  [], ◌∷◌, ◌++◌, map, not, String, str_eq, arith, ltb, ◌==◌, ◌||◌, length, All, keep, keep-yes,
  keep-no, Bool-cases, Option-cases, any, true-ne-false,
}
use mathlib.Core.List.{append_assoc, append-nil, reverse, reverse-append}
use mlx_mesh.Coordinator.Registry.{CapabilityManifest}
use mlx_mesh.Coordinator.Router.{JobSpec}
use mlx_mesh.Coordinator.Parallel.Decompose.{
  BackgroundJob, SubTask, SubTaskType, merge, DecomposedJob, DecompositionModel, Texts, decomposed,
  refused, DecomposeError, classify_query_intent, analytical, merge_task, decompose_job,
}
use mlx_mesh.Coordinator.Parallel.Json.{get, as_text}
use mlx_mesh.Coordinator.Parallel.Merge.{
  MergeInput, order_inputs, names_node, first_unused, select_merge_node, target_from_manifest,
}

-- Sub-tasks that wait for nothing, and a last one that waits for exactly these.
pub record IsPlan (job : JobSpec) (types : List SubTaskType) (tasks : List SubTask) : Type 0 where
  pub parts : List SubTask
  pub last : SubTask
  pub whole : tasks ≡ parts ++ (last ∷ [])
  pub independent : All (λ t. t.depends_on ≡ []) parts
  pub one_each : map (λ t. t.sub_task_type) parts ≡ types
  pub same_model : All (λ t. t.model_id ≡ job.model_id) parts
  pub is_merge_last : last.sub_task_type ≡ merge
  pub waits_for_all : last.depends_on ≡ map (λ t. t.sub_task_id) parts

analytical-All :
    (texts : Texts) (job : JobSpec) (i : ℕ) (ts : List SubTaskType)
    → All (λ t. t.depends_on ≡ []) (analytical texts job i ts)
      × All (λ t. t.model_id ≡ job.model_id) (analytical texts job i ts)
      × (map (λ t. t.sub_task_type) (analytical texts job i ts) ≡ ts)
unfolding analytical
analytical-All texts job i [] = (tt, tt, refl)
analytical-All texts job i (t ∷ ts) =
    let (free, same, types) = analytical-All texts job (suc i) ts in
    ((refl, free), (refl, same), ap (λ l. t ∷ l) types)

refused_not : (e : DecomposeError) (d : DecomposedJob) → refused e ≢ decomposed d
refused_not e d h = cc

-- A job is decomposed only if its requester allows it, it is not in the fast lane and the classifier is
-- sure enough: then each type that was found, at least one, has one sub-task of the job's model that
-- waits for nothing, and a last one, the merge, waits for exactly these.
pub decompose_job-IsPlan :
    (texts : Texts) (job : BackgroundJob) (model : Option DecompositionModel) (d : DecomposedJob)
    → decompose_job texts job model ≡ decomposed d
    → (job.allow_decomposition ≡ true)
      × (str_eq job.lane "fast" ≡ false)
      × (types : List SubTaskType) × (confidence : ℕ) × (classify_query_intent job.spec.job_id model
          ≡ some (types, confidence))
      × (50 ≤ confidence)
      × (types ≢ [])
      × IsPlan job.spec types d.sub_tasks
unfolding decompose_job merge_task
decompose_job-IsPlan texts job model d h = elim (Bool-cases job.allow_decomposition) [
  | inr no_consent ↦ absurd (refused_not _ d (rw (decompose_job, no_consent) at h))
  | inl allowed ↦ elim (Bool-cases (str_eq job.lane "fast")) [
    | inl fast ↦ absurd (refused_not _ d (rw (decompose_job, allowed, fast) at h))
    | inr slow ↦ elim (Option-cases (classify_query_intent job.spec.job_id model)) [
      | inl failed ↦ absurd (refused_not _ d (rw (decompose_job, allowed, slow, failed) at h))
      | inr ((types, confidence), found) ↦
          elim (Bool-cases ((length types == 0) || ltb confidence 50)) [
            | inl poor ↦
                absurd (refused_not _ d (rw (decompose_job, allowed, slow, found, poor) at h))
            | inr good ↦
                (let made = job_of _ d (rw (decompose_job, allowed, slow, found, good) at h) in
                  let (free, same, each) = analytical-All texts job.spec 0 types in
                  (
                    allowed,
                    slow,
                    types,
                    confidence,
                    found,
                    ground arith,
                    λ empty. true-ne-false (sym (rw empty) ∙ good),
                    record {
                      parts = analytical texts job.spec 0 types;
                      last = merge_task job.spec (analytical texts job.spec 0 types);
                      whole = rw (← made);
                      independent = free;
                      one_each = each;
                      same_model = same;
                      is_merge_last = refl;
                      waits_for_all = refl;
                    },
                  ))
          ]
    ]
  ]
]
  where
    job_of : (a b : DecomposedJob) → decomposed a ≡ decomposed b → a ≡ b
    job_of a b e = cc

abbrev pub is_left : MergeInput → Bool
is_left r = str_eq r.position "left"

abbrev pub is_other : MergeInput → Bool
is_other r = not (is_left r)

order_inputs_from :
    (lefts others rs : List MergeInput)
    → order_inputs (lefts ++ others) rs
      ≡ (reverse (keep is_left rs) ++ lefts) ++ (others ++ keep is_other rs)
unfolding order_inputs
order_inputs_from lefts others [] = ap (λ l. lefts ++ l) (sym (append-nil others))
order_inputs_from lefts others (r ∷ rs) = elim (Bool-cases (str_eq r.position "left")) [
  | inl left ↦
      (let other : is_other r ≡ false = rw left in
        let back : reverse (r ∷ keep is_left rs) ≡ reverse (keep is_left rs) ++ (r ∷ []) =
          reverse-append (r ∷ []) (keep is_left rs) in
        rw
          (
            left,
            order_inputs,
            keep-yes is_left r rs left,
            keep-no is_other r rs other,
            back,
            append_assoc (reverse (keep is_left rs)) (r ∷ []) lefts,
          )
          (order_inputs_from (r ∷ lefts) others rs))
  | inr right ↦
      (let other : is_other r ≡ true = rw right in
        rw
          (
            right,
            order_inputs,
            keep-no is_left r rs right,
            keep-yes is_other r rs other,
            append_assoc lefts others (r ∷ []),
            ← append_assoc others (r ∷ []) (keep is_other rs),
          )
          (order_inputs_from lefts (others ++ (r ∷ [])) rs))
]

-- The merge prompt has the results of the left first, but the last of them before the others of them,
-- and then all other results in the order in which they were given.
pub order_inputs_lem :
    (rs : List MergeInput) → order_inputs [] rs ≡ reverse (keep is_left rs) ++ keep is_other rs
order_inputs_lem rs =
    order_inputs_from [] [] rs
    ∙ ap (λ l. l ++ keep is_other rs) (append-nil (reverse (keep is_left rs)))

-- No result says which node made it: then the node that merges is the first node, whichever made them.
pub select_merge_node_first :
    (tls : CapabilityManifest → String) (n : CapabilityManifest) (ns : List CapabilityManifest)
    (rs : List MergeInput)
    → All (λ r. get "_node_id" r.result ≡ none) rs
    → select_merge_node tls (n ∷ ns) rs ≡ target_from_manifest tls n
unfolding select_merge_node first_unused names_node as_text
select_merge_node_first tls n ns rs unnamed =
    let free : any (names_node n.node_id) rs ≡ false = no_name rs unnamed in
    rw (select_merge_node, first_unused, free)
  where
    no_name :
        (rs : List MergeInput)
        → All (λ r. get "_node_id" r.result ≡ none) rs
        → any (names_node n.node_id) rs ≡ false
    no_name [] h = refl
    no_name (r ∷ rs) (h, hs) = rw (names_node, h) (no_name rs hs)
