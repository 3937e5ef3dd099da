-- ===== src/Coordinator/Router/Resolved.antt =====
-- internal/coordinator/router.go, a job for a node that was chosen before: DispatchToResolvedNode and
-- WarmModel. The delivery is an argument, with the lane of the job; times are nanoseconds.
use mlx_mesh.Base.{
  ℕ, ◌+◌, ◌*◌, ◌/◌, ◌&&◌, Bool, Option, none, some, String, ltb, leb, if◌then◌else◌,
}
use mlx_mesh.Base.Int.{pos}
use mlx_mesh.Coordinator.Registry.{
  CapabilityManifest, Registry, is_pull_node, manifest_of, has_model, mark_unreachable,
  record_observed_throughput, incr_in_flight, decr_in_flight,
}
use mlx_mesh.Coordinator.Router.{JobSpec}
use mlx_mesh.Coordinator.Reservations.{NodeTarget}
use mlx_mesh.Coordinator.Parallel.Merge.{target_from_manifest}

-- `usage.completion_tokens` of a reply, or 0, and the time that the delivery took.
pub record Reply : Type 0 where
  pub tokens : ℕ
  pub elapsed : ℕ

-- Whether the node pulls its jobs, where it is, and the lane; none for an error.
abbrev pub DeliverJob : Type 0
DeliverJob = Bool → NodeTarget → String → JobSpec → Option Reply

abbrev pub min_throughput_sample_tokens : ℕ
min_throughput_sample_tokens = 16

-- Tokens a second, rounded to hundredths, in millionths.
unfoldable pub throughput_sample : Reply → Option ℕ
throughput_sample r =
    if leb min_throughput_sample_tokens r.tokens && ltb 0 r.elapsed
    then some ((2 * (r.tokens * 100000000000) + r.elapsed) / (2 * r.elapsed) * 10000)
    else none

unfoldable pub record_sample : Registry → String → Option ℕ → Registry
record_sample r id none = r
record_sample r id (some tps) = record_observed_throughput r id tps

unfoldable pub dispatch_to_resolved_node :
    DeliverJob → Registry → NodeTarget → String → JobSpec → Registry × Option Reply
dispatch_to_resolved_node deliver r target lane job =
    let id = target.node_id in
    let r' = decr_in_flight (incr_in_flight r id) id in
    elim (deliver (is_pull_node r id) target lane job) [
      | none ↦ (mark_unreachable r' id, none)
      | some reply ↦ (record_sample r' id (throughput_sample reply), some reply)
    ]

pub data WarmResult : Type 0 where
  unknown_node not_downloaded warm_failed : WarmResult
  warmed : Reply → WarmResult

-- The identifier of the job has the time in it.
unfoldable pub warm_job : String → String → JobSpec
warm_job job_id model = record {
  job_id = job_id;
  model_id = model;
  quantization_required = "";
  sensitivity = "";
  max_price_per_unit = 0;
  redundancy_depth = pos 0;
}

unfoldable pub warm_model :
    DeliverJob
    → (CapabilityManifest → String)
    → Registry
    → String
    → String
    → String
    → Registry × WarmResult
warm_model deliver tls r job_id node model = elim (manifest_of r node) [
  | none ↦ (r, unknown_node)
  | some manifest ↦
      if has_model manifest model ""
      then (let (r', reply) =
            dispatch_to_resolved_node deliver r (target_from_manifest tls manifest) "warm"
              (warm_job job_id model) in
          (r', elim reply [ none ↦ warm_failed | some x ↦ warmed x ]))
      else (r, not_downloaded)
]
