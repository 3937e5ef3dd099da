-- ===== src/Coordinator/Availability.antt =====
-- internal/coordinator/availability.go, and the round of probes of cmd/coordinator/main.go, which pays
-- idle nodes for an answer. Percentages are in millionths.
pub mod Rounds
mod Tests
use mlx_mesh.Base.{
  ℕ, zero, suc, ◌+◌, ◌-◌, ◌*◌, ◌/◌, ◌||◌, Bool, true, false, Option, none, some, List, [], ◌∷◌,
  String, ltb, leb, ◌==◌, if◌then◌else◌, length, take,
}
use mlx_mesh.Base.Int.{ℤ, pos}
use mlx_mesh.Base.Dict.{Dict}
use mlx_mesh.Settlement.Types.{Ledger, TimeText}
use mlx_mesh.Payments.{credit_availability_reward}
use mlx_mesh.Coordinator.Registry.{
  ModelCapability, CapabilityManifest, Registry, idle_candidates, mark_job_served,
}
use mlx_mesh.Coordinator.Router.{JobSpec}
use mlx_mesh.Coordinator.Parallel.Merge.{target_from_manifest}
use mlx_mesh.Coordinator.Router.Resolved.{Reply, DeliverJob, dispatch_to_resolved_node}

unfoldable pub first_loaded : List ModelCapability → Option ModelCapability
first_loaded [] = none
first_loaded (m ∷ ms) = let rest = first_loaded ms in if m.loaded then some m else rest

unfoldable pub select_probe_target :
    List CapabilityManifest → Option (CapabilityManifest × ModelCapability)
select_probe_target [] = none
select_probe_target (chosen ∷ cs) = elim (first_loaded chosen.models) [
  | none ↦ none
  | some m ↦ some (chosen, m)
]

-- Its lane is the fast one.
unfoldable pub build_probe_job : String → String → String → JobSpec
build_probe_job job_id model quantization = record {
  job_id = job_id;
  model_id = model;
  quantization_required = quantization;
  sensitivity = "low";
  max_price_per_unit = 0;
  redundancy_depth = pos 0;
}

unfoldable pub scaled_probe_budget : ℕ → ℕ → ℕ → ℕ → ℕ
scaled_probe_budget backpressure pct_ceiling low high =
    if (pct_ceiling == 0) || leb high low
    then low
    else if backpressure == 0
    then high
    else if leb pct_ceiling backpressure
    then low
    else low + (pct_ceiling - backpressure) * (high - low) / pct_ceiling

abbrev pub probe_backpressure_ceiling : ℕ
probe_backpressure_ceiling = 40000000

abbrev pub max_per_round : ℕ
max_per_round = 3

abbrev pub max_per_round_ceiling : ℕ
max_per_round_ceiling = 15

abbrev pub fallback_tokens : ℕ
fallback_tokens = 32

-- `extractCompletionTokens`
unfoldable pub extract_completion_tokens : Reply → ℕ → ℕ
extract_completion_tokens reply max_tok = if reply.tokens == 0 then max_tok else reply.tokens

-- What a round reads beside the registry and the ledger: the wallet's links and the users of nodes, the
-- texts and the fingerprints, and the delivery.
pub record Prober : Type 0 where
  pub tx : TimeText
  pub links : Dict String
  pub node_users : Dict String
  pub job_id_of : String → String
  pub tls : CapabilityManifest → String
  pub deliver : DeliverJob
  pub exec : Bool

abbrev pub State : Type 0
State = Registry × Ledger

unfoldable pub probe_one_node : Prober → ℕ → State → CapabilityManifest → ModelCapability → State
probe_one_node p now (r, l) manifest model =
    let job_id = p.job_id_of manifest.node_id in
    let (r', result) =
      dispatch_to_resolved_node p.deliver r (target_from_manifest p.tls manifest) "fast"
        (build_probe_job job_id model.model_id model.quantization) in
    elim result [
      | none ↦ (r', l)
      | some reply ↦
          let tokens = extract_completion_tokens reply fallback_tokens in
          let (l', credited) =
            credit_availability_reward p.tx now p.exec l p.links p.node_users manifest.node_id
              job_id (pos tokens) in
          if leb tokens 0
          then (r', l)
          else if credited
          then (mark_job_served now r' manifest.node_id, l')
          else (r', l')
    ]

-- The loop over the candidates.
unfoldable pub probe_all : Prober → ℕ → State → List CapabilityManifest → State
probe_all p now s [] = s
probe_all p now s (c ∷ cs) =
    let next : State = elim (select_probe_target (c ∷ cs)) [
      | none ↦ s
      | some (manifest, model) ↦ probe_one_node p now s manifest model
    ] in
    probe_all p now next cs

unfoldable pub probe_idle_nodes : Prober → ℕ → ℕ → ℕ → State → State
probe_idle_nodes p now idle_threshold backpressure s =
    let budget =
      scaled_probe_budget backpressure probe_backpressure_ceiling max_per_round
        max_per_round_ceiling in
    if ltb probe_backpressure_ceiling backpressure
    then s
    else probe_all p now s (take budget (idle_candidates now idle_threshold s.0))
