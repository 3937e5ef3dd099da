-- ===== src/Coordinator/Parallel/Prompt.antt =====
-- What RouteWithDecomposition of internal/coordinator/router.go sends to the merge node, and which node
-- that is.
use mlx_mesh.Base.{
  ℕ, suc, ◌+◌, ◌≡◌, refl, ap, ◌∙◌, sym, inl, inr, Bool, false, some, List, [], ◌∷◌, ◌++◌, map,
  String, arith, ◌==◌, length, get_elem?, any, Option-cases, Bool-cases,
}
use mathlib.Core.List.{append_assoc, append-nil}
use mlx_mesh.Coordinator.Registry.{CapabilityManifest}
use mlx_mesh.Coordinator.Router.{JobSpec}
use mlx_mesh.Coordinator.Parallel.Json.{Fields, content_of}
use mlx_mesh.Coordinator.Parallel.Decompose.{SubTask}
use mlx_mesh.Coordinator.Parallel.Merge.{
  Section, merging, MergeInput, select_merge_node, first_unused, names_node, order_inputs, sections,
  build_merge_prompt, target_from_manifest,
}
use mlx_mesh.Coordinator.Parallel.Route.{merge_inputs}

-- Results without a position keep their order.
order_inputs-merge_inputs :
    (ok : Bool) (ts : List SubTask) (rs : List Fields) (ordered : List MergeInput)
    → order_inputs ordered (merge_inputs ok ts rs) ≡ ordered ++ merge_inputs ok ts rs
unfolding order_inputs merge_inputs
order_inputs-merge_inputs ok [] rs ordered = sym (append-nil ordered)
order_inputs-merge_inputs ok (t ∷ ts) [] ordered = sym (append-nil ordered)
order_inputs-merge_inputs ok (t ∷ ts) (r ∷ rs) ordered =
    order_inputs-merge_inputs ok ts rs (ordered ++ (_ ∷ []))
    ∙ append_assoc ordered (_ ∷ []) (merge_inputs ok ts rs)

contents-sections :
    (i : ℕ) (rs : List MergeInput)
    → map (λ s. s.content) (sections i rs) ≡ map (λ r. content_of r.result) rs
unfolding sections
contents-sections i [] = refl
contents-sections i (r ∷ rs) = ap (λ l. content_of r.result ∷ l) (contents-sections (i + 1) rs)

contents-merge_inputs :
    (ok : Bool) (ts : List SubTask) (rs : List Fields)
    → length rs ≡ length ts
    → map (λ i. content_of i.result) (merge_inputs ok ts rs) ≡ map content_of rs
unfolding merge_inputs
contents-merge_inputs ok [] [] h = refl
contents-merge_inputs ok [] (r ∷ rs) h = absurd (omega (arith, h))
contents-merge_inputs ok (t ∷ ts) [] h = absurd (omega (arith, h))
contents-merge_inputs ok (t ∷ ts) (r ∷ rs) h =
    ap (λ l. content_of r ∷ l) (contents-merge_inputs ok ts rs (omega (arith, h)))

-- The prompt has a section for each result, in their order.
pub prompt-merge_inputs :
    (ok : Bool) (ts : List SubTask) (rs : List Fields) (job : JobSpec)
    → length rs ≡ length ts
    → (ss : List Section) × (build_merge_prompt (merge_inputs ok ts rs) job ≡ merging ss job.job_id)
      × (map (λ s. s.content) ss ≡ map content_of rs)
unfolding build_merge_prompt
prompt-merge_inputs ok ts rs job h = (
  sections 0 (order_inputs [] (merge_inputs ok ts rs)),
  refl,
  contents-sections 0 _
      ∙ ap (λ is. map (λ (i : MergeInput). content_of i.result) is)
          (order_inputs-merge_inputs ok ts rs [])
      ∙ contents-merge_inputs ok ts rs h,
)

first_unused-listed :
    (rs : List MergeInput) (ns : List CapabilityManifest) (n : CapabilityManifest)
    → first_unused rs ns ≡ some n
    → (k : ℕ) × (get_elem? ns k ≡ some n)
unfolding first_unused
first_unused-listed rs [] n h = cc
first_unused-listed rs (m ∷ ns) n h = elim (Bool-cases (any (names_node m.node_id) rs)) [
  | inl used ↦
      (let (k, at_k) = first_unused-listed rs ns n (rw (first_unused, used) at h) in (suc k, at_k))
  | inr unused ↦ (0, rw (first_unused, unused) at h)
]

-- The merge node is one of the nodes.
pub select_merge_node-listed :
    (tls : CapabilityManifest → String) (ns : List CapabilityManifest) (rs : List MergeInput)
    → (length ns == 0) ≡ false
    → (n : CapabilityManifest) × (k : ℕ) × (get_elem? ns k ≡ some n)
      × (select_merge_node tls ns rs ≡ target_from_manifest tls n)
unfolding select_merge_node
select_merge_node-listed tls [] rs h = absurd (ground arith)
select_merge_node-listed tls (m ∷ ns) rs h = elim (Option-cases (first_unused rs (m ∷ ns))) [
  | inl every ↦ (m, 0, refl, rw (select_merge_node, every))
  | inr (n, found) ↦
      (let (k, at_k) = first_unused-listed rs (m ∷ ns) n found in
        (n, k, at_k, rw (select_merge_node, found)))
]
