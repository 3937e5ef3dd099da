-- ===== src/Coordinator/Router.antt =====
-- internal/coordinator/router.go: which nodes are eligible for a job, and the loop that dispatches it,
-- which runs on any list of nodes. The order that it is given is in Ranking.
pub mod Dispatch
pub mod Ranking
pub mod Background
pub mod Streaming
pub mod Resolved
mod Tests
use mlx_mesh.Base.{
  ℕ, zero, suc, ◌+◌, ◌*◌, ◌&&◌, not, Bool, true, false, Option, none, some, List, [], ◌∷◌, String,
  str_eq, ltb, leb, if◌then◌else◌,
}
use mlx_mesh.Base.Int.{ℤ, pos, negsuc}
use mlx_mesh.Coordinator.Registry.{
  MeasuredSignature, CapabilityManifest, NodeWithLoad, Registry, has_model, model_is_loaded,
  candidates_with_load, mark_unreachable, record_observed_throughput, incr_in_flight,
  decr_in_flight,
}

-- internal/protocol/jobspec.go, the fields that routing reads.
pub record JobSpec : Type 0 where
  pub job_id : String
  pub model_id : String
  pub quantization_required : String
  pub sensitivity : String
  pub max_price_per_unit : ℕ
  pub redundancy_depth : ℤ

-- A score as a fraction: base / (1 + n / 2), with the base in the unit of rates.
pub record Score : Type 0 where
  pub num : ℕ
  pub den : ℕ

-- The counter of a node; it is not negative (`decr_in_flight` floors it).
unfoldable pub load_of : ℤ → ℕ
load_of (pos n) = n
load_of (negsuc _) = 0

unfoldable pub over_ceiling : CapabilityManifest → JobSpec → Bool
over_ceiling node job = ltb 0 job.max_price_per_unit && elim node.compute_cycles_price [
  | none ↦ false
  | some price ↦ ltb job.max_price_per_unit price
]

-- `ScoreForFastLane`: none is minus infinity. The base of a node that was never measured is one token
-- a second.
unfoldable pub score_for_fast_lane : CapabilityManifest → JobSpec → ℤ → Bool → Option Score
score_for_fast_lane node job in_flight enclave_attested =
    let base : ℕ = elim node.measured_signature [
      | none ↦ 1000000
      | some s ↦ s.tokens_per_sec_decode
    ] in
    if str_eq job.sensitivity "high_requires_attestation" && not enclave_attested
    then none
    else if not (has_model node job.model_id job.quantization_required)
    then none
    else if not (model_is_loaded node job.model_id job.quantization_required)
    then none
    else if over_ceiling node job
    then none
    else some (record { num = 2 * base; den = 2 + load_of in_flight })

-- `effectiveManifest`: what was observed takes the place of what was declared.
unfoldable pub effective_manifest : NodeWithLoad → CapabilityManifest
effective_manifest n = elim n.observed_tps [
  | none ↦ n.manifest
  | some tps ↦ record n.manifest {
    measured_signature = some (record {
      tokens_per_sec_decode = tps;
      tokens_per_sec_prefill = elim n.manifest.measured_signature [
        | none ↦ 0
        | some s ↦ s.tokens_per_sec_prefill
      ];
    });
  }
]

unfoldable pub score_of : JobSpec → NodeWithLoad → Option Score
score_of job n = score_for_fast_lane (effective_manifest n) job n.in_flight n.enclave_attested

-- The first loop of `rankCandidates`: the nodes with a score.
unfoldable pub eligible : JobSpec → List NodeWithLoad → List NodeWithLoad
eligible job [] = []
eligible job (n ∷ ns) =
    let rest = eligible job ns in elim (score_of job n) [ none ↦ rest | some _ ↦ n ∷ rest ]

-- A delivery to a node: none for an error, else the rate to record, if the reply was long enough to
-- measure one.
abbrev pub Deliver : Type 0
Deliver = String → Option (Option ℕ)

-- The loop of `DispatchFastLane`: the registry and the node that served the job, if any did.
unfoldable pub dispatch_ranked :
    Deliver → ℕ → ℕ → Registry → List NodeWithLoad → Registry × Option String
dispatch_ranked deliver max_attempts attempted r [] = (r, none)
dispatch_ranked deliver max_attempts attempted r (n ∷ ns) =
    let id = n.manifest.node_id in
    let r' = decr_in_flight (incr_in_flight r id) id in
    let rest = dispatch_ranked deliver max_attempts (suc attempted) (mark_unreachable r' id) ns in
    if leb max_attempts attempted then (r, none) else elim (deliver id) [
      | none ↦ rest
      | some none ↦ (r', some id)
      | some (some tps) ↦ (record_observed_throughput r' id tps, some id)
    ]
