-- ===== src/Coordinator/Pull.antt =====
-- internal/coordinator/pulldispatch.go: the mailboxes of the nodes that fetch their jobs, and the
-- channels on which their results come back. A channel is named by the call of `Dispatch` that makes
-- it; a context that ends is a step that may be taken at any time. What the lock covers is one step.
pub mod System
pub mod Mail
pub mod Results
pub mod Once
mod Tests
use mlx_mesh.Base.{
  ℕ, ◌++◌, Bool, true, false, Option, none, some, List, [], ◌∷◌, String, length, ltb, if◌then◌else◌,
}
use mlx_mesh.Base.Dict.{Dict, lookup, insert, erase}
use mlx_mesh.Coordinator.Router.{JobSpec}

-- A message, and a result, is its JSON.
pub record PendingJob : Type 0 where
  pub job_id : String
  pub job : JobSpec
  pub messages : List String

pub record JobResult : Type 0 where
  pub result : Option String
  pub err : Option String

-- A job waits in the mailbox of its node; a waiter is the name of a channel.
pub record PullDispatcher : Type 0 where
  pub queues : Dict (List PendingJob)
  pub waiters : Dict ℕ
  pub queue_depth : ℕ

abbrev pub default_pull_queue_depth : ℕ
default_pull_queue_depth = 16

unfoldable pub new_pull_dispatcher : PullDispatcher
new_pull_dispatcher = record { queues = []; waiters = []; queue_depth = default_pull_queue_depth }

unfoldable pub queue_for : PullDispatcher → String → PullDispatcher × List PendingJob
queue_for p node_id = elim (lookup node_id p.queues) [
  | none ↦ (record p { queues = insert node_id [] p.queues }, [])
  | some q ↦ (p, q)
]

-- The parts of `Dispatch`: it registers its channel, tries to send without waiting, and takes its
-- waiter back when it returns.
unfoldable pub add_waiter : PullDispatcher → JobSpec → ℕ → PullDispatcher
add_waiter p job channel = record p { waiters = insert job.job_id channel p.waiters }

unfoldable pub try_enqueue : PullDispatcher → String → JobSpec → List String → PullDispatcher × Bool
try_enqueue p node_id job messages =
    let (p', q) = queue_for p node_id in
    let pending : PendingJob = record { job_id = job.job_id; job = job; messages = messages } in
    if ltb (length q) p'.queue_depth
    then (record p' { queues = insert node_id (q ++ (pending ∷ [])) p'.queues }, true)
    else (p', false)

unfoldable pub delete_waiter : PullDispatcher → JobSpec → PullDispatcher
delete_waiter p job = record p { waiters = erase job.job_id p.waiters }

-- `Claim` on a mailbox that has a job; none where it would wait, or times out.
unfoldable pub claim : PullDispatcher → String → PullDispatcher × Option PendingJob
claim p node_id =
    let (p', q) = queue_for p node_id in
    elim q [
      | [] ↦ (p', none)
      | job ∷ rest ↦ (record p' { queues = insert node_id rest p'.queues }, some job)
    ]

-- The parts of `SubmitResult`: it looks the channel up, and sends if the buffer of one is free.
unfoldable pub find_waiter : PullDispatcher → String → Option ℕ
find_waiter p job_id = lookup job_id p.waiters

unfoldable pub offer : Option JobResult → JobResult → Option JobResult × Bool
offer none r = (some r, true)
offer (some old) r = (some old, false)
