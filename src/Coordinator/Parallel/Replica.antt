-- ===== src/Coordinator/Parallel/Replica.antt =====
-- When RouteWithDecomposition of internal/coordinator/router.go takes the results as verified.
use mlx_mesh.Base.{
  ℕ, suc, ◌<◌, ◌≡◌, ◌≢◌, refl, ap, inl, inr, arith, ltb, Bool, true, false, Option, none, some,
  List, [], ◌∷◌, String, eq_iff, str_eq, length, ◌⊎◌, Bool-cases, Option-cases,
}
use mlx_mesh.Coordinator.Registry.{CapabilityManifest}
use mlx_mesh.Coordinator.Parallel.Json.{Fields, end, Codec, compute_output_checksum}
use mlx_mesh.Coordinator.Parallel.Decompose.{BackgroundJob, SubTask}
use mlx_mesh.Coordinator.Parallel.Merge.{Dispatch, target_from_manifest, user}
use mlx_mesh.Coordinator.Parallel.Verify.{should_use_parallel_verification}
use mlx_mesh.Coordinator.Parallel.Route.{
  verification_of, same_checksum, replica_agrees, dispatch_sub_task, or_empty,
  estimate_analytical_prompt_tokens,
}

unverified_cases :
    (job : BackgroundJob) (more estimate : ℕ)
    → (job.lane ≢ "background")
      ⊎ (job.require_deterministic_output ≡ false)
      ⊎ (estimate < 500)
      ⊎ (should_use_parallel_verification job (suc (suc more)) estimate ≡ true)
unfolding should_use_parallel_verification
unverified_cases job more estimate = elim (Bool-cases (str_eq job.lane "background")) [
  | inr elsewhere ↦
      inl (λ same. absurd (no-clash ((eq_iff job.lane "background").1 same) elsewhere))
  | inl background ↦ elim (Bool-cases job.require_deterministic_output) [
    | inr free ↦ inr (inl free)
    | inl fixed ↦ elim (Bool-cases (ltb estimate 500)) [
      | inl small ↦ inr (inr (inl (ground arith)))
      | inr large ↦ inr (
          inr (
            inr (
              let two : ltb (suc (suc more)) 2 ≡ false = ground arith in
              rw (should_use_parallel_verification, background, fixed, large, two) refl)))
    ]
  ]
]
  where
    no-clash : {b : Bool} → b ≡ true → b ≡ false → ⊥
    no-clash p q = cc

module _ (tls : CapabilityManifest → String) (dispatch : Dispatch) (codec : Codec) where
  -- The node answers the sub-task again, with the same checksum. A nil map counts as an empty one.
  abbrev pub Agrees : SubTask → CapabilityManifest → Fields → Type 0
  Agrees t n result =
      (replica : Option Fields) × (sum : String) × (dispatch (target_from_manifest tls n)
          t.sub_task_id (user t.prompt)
        ≡ some replica)
      × (compute_output_checksum codec result ≡ some sum)
      × (compute_output_checksum codec (elim replica [ none ↦ end | some fields ↦ fields ])
          ≡ some sum)

  -- The second node has agreed with the first result, unless the job is not one of the background lane
  -- that requires a deterministic output and has an estimate of 500 tokens or more.
  abbrev pub IsReplicated :
      BackgroundJob → List SubTask → List CapabilityManifest → List Fields → Type 0
  IsReplicated job (t ∷ ts) (n ∷ m ∷ ns) (r ∷ rs) =
      (job.lane ≢ "background")
      ⊎ (job.require_deterministic_output ≡ false)
      ⊎ (estimate_analytical_prompt_tokens (t ∷ ts) < 500)
      ⊎ Agrees t m r
  IsReplicated job _ _ _ = Unit

  same_checksum-some :
      (a b : Option String)
      → same_checksum a b ≡ true
      → (sum : String) × (a ≡ some sum) × (b ≡ some sum)
  unfolding same_checksum
  same_checksum-some none b h = cc
  same_checksum-some (some x) none h = cc
  same_checksum-some (some x) (some y) h =
      let same : x ≡ y = (eq_iff x y).0 h in (y, ap some same, refl)

  replica_agrees-Agrees :
      (t : SubTask) (n : CapabilityManifest) (r : Fields)
      → replica_agrees tls dispatch codec t n r ≡ true
      → Agrees t n r
  unfolding replica_agrees dispatch_sub_task or_empty
  replica_agrees-Agrees t n r h =
      elim (Option-cases (dispatch (target_from_manifest tls n) t.sub_task_id (user t.prompt))) [
        | inl failed ↦ cc (rw (replica_agrees, dispatch_sub_task, failed) at h)
        | inr (none, sent) ↦
            (let (sum, mine, its) =
                same_checksum-some _ _ (rw (replica_agrees, dispatch_sub_task, sent) at h) in
              (none, sum, sent, mine, its))
        | inr (some replica, sent) ↦
            (let (sum, mine, its) =
                same_checksum-some _ _ (rw (replica_agrees, dispatch_sub_task, sent) at h) in
              (some replica, sum, sent, mine, its))
      ]

  -- Whatever is taken as verified is replicated.
  pub verification_of-IsReplicated :
      (job : BackgroundJob) (tasks : List SubTask) (nodes : List CapabilityManifest)
      (results : List Fields)
      → verification_of tls dispatch codec job tasks nodes results ≡ true
      → IsReplicated job tasks nodes results
  unfolding verification_of
  verification_of-IsReplicated job [] nodes results h = tt
  verification_of-IsReplicated job (t ∷ ts) [] results h = tt
  verification_of-IsReplicated job (t ∷ ts) (n ∷ []) results h = tt
  verification_of-IsReplicated job (t ∷ ts) (n ∷ m ∷ ns) [] h = tt
  verification_of-IsReplicated job (t ∷ ts) (n ∷ m ∷ ns) (r ∷ rs) h =
      elim (unverified_cases job (length ns) (estimate_analytical_prompt_tokens (t ∷ ts))) [
        | inl lane ↦ inl lane
        | inr (inl free) ↦ inr (inl free)
        | inr (inr (inl small)) ↦ inr (inr (inl small))
        | inr (inr (inr used)) ↦
            inr (inr (inr (replica_agrees-Agrees t m r (rw (verification_of, used) at h))))
      ]
