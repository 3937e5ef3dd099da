-- ===== src/Coordinator/Pull/System.antt =====
-- The pull dispatcher with the calls that run on it: `Dispatch` and `SubmitResult` step by step.
use mlx_mesh.Base.{
  ℕ, suc, ◌≡◌, ◌++◌, Bool, false, Option, none, some, List, [], ◌∷◌, String, str_eq, ◌==◌,
  if◌then◌else◌,
}
use mlx_mesh.Base.Int.{pos}
use mlx_mesh.Coordinator.Router.{JobSpec}
use mlx_mesh.Coordinator.Pull.{
  PendingJob, JobResult, PullDispatcher, new_pull_dispatcher, add_waiter, try_enqueue,
  delete_waiter, claim, find_waiter, offer,
}

-- How a call of `Dispatch` ends.
pub data Outcome : Type 0 where
  delivered : JobResult → Outcome
  queue_full expired : Outcome

-- `returning` has its outcome and has not yet taken its waiter back.
pub data Phase : Type 0 where
  idle registered enqueued : Phase
  returning returned : Outcome → Phase

pub record Call : Type 0 where
  pub node_id : String
  pub job : JobSpec
  pub messages : List String
  pub phase : Phase

-- A call of `SubmitResult`: `found` has the channel and has not yet sent on it.
pub data Submission : Type 0 where
  silent : Submission
  found : String → ℕ → JobResult → Submission
  answered : Bool → Submission

-- The calls and channels by number, and what happened so far: the jobs that each node was sent and
-- that it claimed, oldest first, the results handed in, and how many each channel took.
pub record System : Type 0 where
  pub dispatcher : PullDispatcher
  pub calls : ℕ → Call
  pub channels : ℕ → Option JobResult
  pub submissions : ℕ → Submission
  pub sent : String → List PendingJob
  pub claimed : String → List PendingJob
  pub handed_in : List (String × JobResult)
  pub accepted : ℕ → ℕ

abbrev pub update {ℓ} : {A : Type ℓ} → (ℕ → A) → ℕ → A → ℕ → A
update f k v j = if j == k then v else f j

-- The list of a node, with a job after it.
abbrev pub log : (String → List PendingJob) → String → PendingJob → String → List PendingJob
log f node_id job j = if str_eq node_id j then f j ++ (job ∷ []) else f j

abbrev no_job : JobSpec
no_job = record {
  job_id = "";
  model_id = "";
  quantization_required = "";
  sensitivity = "";
  max_price_per_unit = 0;
  redundancy_depth = pos 0;
}

abbrev pub initial : System
initial = record {
  dispatcher = new_pull_dispatcher;
  calls = λ _. record { node_id = ""; job = no_job; messages = []; phase = idle };
  channels = λ _. none;
  submissions = λ _. silent;
  sent = λ _. [];
  claimed = λ _. [];
  handed_in = [];
  accepted = λ _. 0;
}

abbrev pub set_phase : System → ℕ → Phase → System
set_phase s c p = record s { calls = update s.calls c (record (s.calls c) { phase = p }) }

abbrev pub pending_of : Call → PendingJob
pending_of c = record { job_id = c.job.job_id; job = c.job; messages = c.messages }

-- Call number `c` of `Dispatch` begins.
unfoldable pub begin : System → ℕ → String → JobSpec → List String → System
begin s c node_id job messages = record s {
  dispatcher = add_waiter s.dispatcher job c;
  calls =
      update s.calls c
        (record { node_id = node_id; job = job; messages = messages; phase = registered });
  channels = update s.channels c none;
}

-- It hands its job over, or finds the mailbox full.
unfoldable pub send : System → ℕ → System
send s c =
    let k = s.calls c in
    let (p, ok) = try_enqueue s.dispatcher k.node_id k.job k.messages in
    if ok
    then record s {
      dispatcher = p;
      calls = update s.calls c (record k { phase = enqueued });
      sent = log s.sent k.node_id (pending_of k);
    }
    else record s {
      dispatcher = p;
      calls = update s.calls c (record k { phase = returning queue_full });
    }

-- It takes the result from its channel.
unfoldable pub receive : System → ℕ → JobResult → System
receive s c r = record s {
  calls = update s.calls c (record (s.calls c) { phase = returning (delivered r) });
  channels = update s.channels c none;
}

-- It returns.
unfoldable pub finish : System → ℕ → Outcome → System
finish s c o = record s {
  dispatcher = delete_waiter s.dispatcher (s.calls c).job;
  calls = update s.calls c (record (s.calls c) { phase = returned o });
}

-- A node asks for a job.
unfoldable pub fetch : System → String → System
fetch s node_id =
    let (p, job) = claim s.dispatcher node_id in
    elim job [
      | none ↦ record s { dispatcher = p }
      | some job ↦ record s { dispatcher = p; claimed = log s.claimed node_id job }
    ]

-- A node hands in a result, in two steps.
unfoldable pub submit : System → ℕ → String → JobResult → System
submit s k job_id r = record s {
  submissions = update s.submissions k (elim (find_waiter s.dispatcher job_id) [
    | none ↦ answered false
    | some c ↦ found job_id c r
  ]);
  handed_in = (job_id, r) ∷ s.handed_in;
}

unfoldable pub deliver : System → ℕ → ℕ → JobResult → System
deliver s k c r =
    let (buffer, ok) = offer (s.channels c) r in
    record s {
      channels = update s.channels c buffer;
      submissions = update s.submissions k (answered ok);
      accepted = update s.accepted c (if ok then suc (s.accepted c) else s.accepted c);
    }

pub data Step (s : System) : System → Type 0 where
  begins :
      (c : ℕ) (node_id : String) (job : JobSpec) (messages : List String)
      → (s.calls c).phase ≡ idle
      → Step s (begin s c node_id job messages)
  sends : (c : ℕ) → (s.calls c).phase ≡ registered → Step s (send s c)
  -- The context ends before the job is handed over, or while the result is awaited.
  gives_up : (c : ℕ) → (s.calls c).phase ≡ registered → Step s (set_phase s c (returning expired))
  expires : (c : ℕ) → (s.calls c).phase ≡ enqueued → Step s (set_phase s c (returning expired))
  receives :
      (c : ℕ) (r : JobResult)
      → (s.calls c).phase ≡ enqueued
      → s.channels c ≡ some r
      → Step s (receive s c r)
  finishes : (c : ℕ) (o : Outcome) → (s.calls c).phase ≡ returning o → Step s (finish s c o)
  fetches : (node_id : String) → Step s (fetch s node_id)
  submits :
      (k : ℕ) (job_id : String) (r : JobResult)
      → s.submissions k ≡ silent
      → Step s (submit s k job_id r)
  delivers :
      (k : ℕ) (job_id : String) (c : ℕ) (r : JobResult)
      → s.submissions k ≡ found job_id c r
      → Step s (deliver s k c r)

-- The states that any interleaving of any number of calls leads to.
pub data Reach : System → Type 0 where
  start : Reach initial
  next : {s t : System} → Reach s → Step s t → Reach t
