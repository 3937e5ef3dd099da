-- ===== src/Coordinator/Queue/Tests.antt =====
-- A queue that one job waits in, and a worker whose second attempt succeeds.
use mlx_mesh.Base.{◌*◌, ◌≡◌, refl, none, some, arith, if◌then◌else◌, ltb}
use mlx_mesh.Coordinator.Queue.{
  NodeSnapshot, World, timer, QueueResult, process_job, clamp_int, new_job_queue, admits,
}
use mlx_mesh.Coordinator.Queue.Worker.{IsTimely, process_job_total}
use mlx_mesh.Coordinator.Queue.System.{
  System, initial, arrive, enter, Reach, start, next, arrives, enters, IsQueue, Reach-IsQueue,
}

abbrev node : NodeSnapshot
node = record { status = "live"; measured_toks_per_sec = 90000000 }

abbrev s : System
s = enter (arrive (initial 50) 0) 0

reached : Reach 50 s
unfolding arrive admits new_job_queue clamp_int
reached = next (next start (arrives 0 refl)) (enters 0 refl)

Reach-IsQueue_example : IsQueue s
Reach-IsQueue_example = Reach-IsQueue 50 s reached

-- A round starts every half second; the second attempt finds a node.
abbrev world : World
world = record {
  now = λ k. k * 500000000;
  ctx_err = λ _. none;
  dispatch = λ k. if ltb k 1 then none else some "reply";
  wake = λ _. timer;
}

process_job_total_example :
    (r : QueueResult) × (process_job world 1000000000 4 0 ≡ some r) × IsTimely world 1000000000 r
process_job_total_example =
    process_job_total world 1000000000 3 0 (λ i e. omega arith) (omega arith)
