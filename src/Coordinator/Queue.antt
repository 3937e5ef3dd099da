-- ===== src/Coordinator/Queue.antt =====
-- internal/coordinator/queue.go: how many jobs may wait, the calls that wait, and what a worker does
-- with a job. Throughput is in millionths of a token a second; times are in nanoseconds.
pub mod Capacity
pub mod System
pub mod Worker
mod Tests
use mlx_mesh.Base.{
  ℕ, zero, suc, ◌+◌, ◌-◌, ◌*◌, ◌/◌, Bool, true, false, Option, none, some, List, [], ◌∷◌, ◌++◌,
  String, str_eq, ltb, leb, ◌==◌, if◌then◌else◌, length,
}

abbrev pub min_queue_capacity : ℕ
min_queue_capacity = 10

abbrev pub max_queue_capacity : ℕ
max_queue_capacity = 500

abbrev pub node_floor_per_live_node : ℕ
node_floor_per_live_node = 3

-- `tpsPerQueueSlot`, in the unit of throughput.
abbrev pub tps_per_queue_slot : ℕ
tps_per_queue_slot = 2000000

abbrev pub queue_retry_interval : ℕ
queue_retry_interval = 400000000

-- What the capacity reads of a snapshot of the registry.
pub record NodeSnapshot : Type 0 where
  pub status : String
  pub measured_toks_per_sec : ℕ

unfoldable pub clamp_int : ℕ → ℕ → ℕ → ℕ
clamp_int v min max = if ltb v min then min else if ltb max v then max else v

unfoldable pub live_nodes : List NodeSnapshot → ℕ
live_nodes [] = 0
live_nodes (n ∷ ns) = let rest = live_nodes ns in if str_eq n.status "live" then suc rest else rest

unfoldable pub aggregate_tps : List NodeSnapshot → ℕ
aggregate_tps [] = 0
aggregate_tps (n ∷ ns) =
    let rest = aggregate_tps ns in
    if str_eq n.status "live" then n.measured_toks_per_sec + rest else rest

unfoldable pub compute_queue_capacity : List NodeSnapshot → ℕ
compute_queue_capacity nodes =
    let from_throughput : ℕ = aggregate_tps nodes / tps_per_queue_slot in
    let floor : ℕ = live_nodes nodes * node_floor_per_live_node in
    clamp_int (if ltb from_throughput floor then floor else from_throughput) min_queue_capacity
      max_queue_capacity

-- The jobs that wait, by the number of their call, oldest first; and the limit of admission.
pub record JobQueue : Type 0 where
  pub ch : List ℕ
  pub capacity : ℕ

unfoldable pub new_job_queue : ℕ → JobQueue
new_job_queue initial_capacity = record {
  ch = [];
  capacity = clamp_int initial_capacity min_queue_capacity max_queue_capacity;
}

unfoldable pub retarget : JobQueue → List NodeSnapshot → JobQueue
retarget q nodes = record q { capacity = compute_queue_capacity nodes }

-- The two steps of `Enqueue` before it waits: the test against the capacity, and the send.
unfoldable pub admits : JobQueue → Bool
admits q = ltb (length q.ch) q.capacity

unfoldable pub push : JobQueue → ℕ → JobQueue × Bool
push q job =
    if ltb (length q.ch) max_queue_capacity
    then (record q { ch = q.ch ++ (job ∷ []) }, true)
    else (q, false)

-- A worker takes a job.
unfoldable pub pop : JobQueue → JobQueue × Option ℕ
pop q = elim q.ch [ [] ↦ (q, none) | job ∷ rest ↦ (record q { ch = rest }, some job) ]

-- `BackpressurePct`, in millionths of a percent.
unfoldable pub backpressure_pct : JobQueue → ℕ
backpressure_pct q = if q.capacity == 0 then 0 else length q.ch * 100 * 1000000 / q.capacity

-- The result that a waiting call gets.
pub data QueueResult : Type 0 where
  done : String → QueueResult
  deadline_exceeded shutting_down : QueueResult
  caller_gone : String → QueueResult

-- What ends a worker's pause: the timer, the end of the coordinator, or that of the caller's context.
pub data Wake : Type 0 where
  timer shutdown : Wake
  cancelled : String → Wake

-- What a worker meets in each round: the time, the error of the caller's context, the answer of
-- `DispatchFastLane`, or none for its error, and what ends the pause after it.
pub record World : Type 0 where
  pub now : ℕ → ℕ
  pub ctx_err : ℕ → Option String
  pub dispatch : ℕ → Option String
  pub wake : ℕ → Wake

-- The loop of `processJob` from round `k` on; none means that the fuel ran out.
unfoldable pub process_job : World → ℕ → ℕ → ℕ → Option QueueResult
process_job w deadline zero k = none
process_job w deadline (suc fuel) k =
    let rest = process_job w deadline fuel (suc k) in
    if ltb deadline (w.now k) then some deadline_exceeded else elim (w.ctx_err k) [
      | some e ↦ some (caller_gone e)
      | none ↦ elim (w.dispatch k) [
        | some reply ↦ some (done reply)
        | none ↦ elim (w.wake k) [
          | shutdown ↦ some shutting_down
          | cancelled e ↦ some (caller_gone e)
          | timer ↦ rest
        ]
      ]
    ]
