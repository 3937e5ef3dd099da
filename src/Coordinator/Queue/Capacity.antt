-- ===== src/Coordinator/Queue/Capacity.antt =====
-- The capacity of the queue stays in its range, and grows with the network.
use mlx_mesh.Base.{ℕ, ◌*◌, ◌/◌, ◌≤◌, List, ◌∷◌, ltb, if◌then◌else◌, arith}
use mlx_mesh.Coordinator.Queue.{
  NodeSnapshot, clamp_int, live_nodes, aggregate_tps, compute_queue_capacity,
}

pub clamp_int_bounds : (v : ℕ) → (10 ≤ clamp_int v 10 500) × (clamp_int v 10 500 ≤ 500)
unfolding clamp_int
clamp_int_bounds v = ground arith

clamp_int_mono : (v w : ℕ) → v ≤ w → clamp_int v 10 500 ≤ clamp_int w 10 500
unfolding clamp_int
clamp_int_mono v w h = ground arith

abbrev larger : ℕ → ℕ → ℕ
larger a b = if ltb a b then b else a

larger_mono : (a b c d : ℕ) → a ≤ c → b ≤ d → larger a b ≤ larger c d
larger_mono a b c d h k = ground arith

counts_mono :
    (n : NodeSnapshot) (ns : List NodeSnapshot)
    → (live_nodes ns ≤ live_nodes (n ∷ ns)) × (aggregate_tps ns ≤ aggregate_tps (n ∷ ns))
unfolding live_nodes aggregate_tps
counts_mono n ns = ground arith

-- The capacity is between 10 and 500 for every network, and a node that joins never lowers it, whatever
-- its status and its throughput.
pub compute_queue_capacity_bounds :
    (n : NodeSnapshot) (ns : List NodeSnapshot)
    → (10 ≤ compute_queue_capacity ns)
      × (compute_queue_capacity ns ≤ 500)
      × (compute_queue_capacity ns ≤ compute_queue_capacity (n ∷ ns))
unfolding compute_queue_capacity
compute_queue_capacity_bounds n ns =
    let (count, tps) = counts_mono n ns in
    let slots : aggregate_tps ns / 2000000 ≤ aggregate_tps (n ∷ ns) / 2000000 =
      omega (arith, tps) in
    let floors : live_nodes ns * 3 ≤ live_nodes (n ∷ ns) * 3 = omega (arith, count) in
    let wanted : ℕ = larger (aggregate_tps ns / 2000000) (live_nodes ns * 3) in
    let (low, high) = clamp_int_bounds wanted in
    (
      low,
      high,
      clamp_int_mono wanted (larger (aggregate_tps (n ∷ ns) / 2000000) (live_nodes (n ∷ ns) * 3)) (
          larger_mono (aggregate_tps ns / 2000000) (live_nodes ns * 3)
            (aggregate_tps (n ∷ ns) / 2000000) (live_nodes (n ∷ ns) * 3) slots floors),
    )
