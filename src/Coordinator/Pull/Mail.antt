-- ===== src/Coordinator/Pull/Mail.antt =====
-- The mailboxes are bounded queues: what was sent is what was claimed, then what waits.
use mlx_mesh.Base.{
  ℕ, ◌≤◌, ◌≡◌, refl, sym, ◌∙◌, ap, inl, inr, ◌++◌, Bool, true, false, ◌⊎◌, ◌<◌, Option, none, some,
  List, [], ◌∷◌, String, str_eq, length, length-append, ltb, String-cases, Bool-cases, Option-cases,
  arith, if◌then◌else◌, eq_iff, eq_refl,
}
use mlx_mesh.Base.Dict.{lookup, insert, lookup-insert}
use mlx_mesh.Coordinator.Router.{JobSpec}
use mlx_mesh.Coordinator.Pull.{
  PendingJob, PullDispatcher, default_pull_queue_depth, new_pull_dispatcher, queue_for, add_waiter,
  try_enqueue, delete_waiter, claim,
}
use mathlib.Core.List.{append_assoc}
use mlx_mesh.Coordinator.Pull.System.{
  pending_of, System, Step, begins, sends, gives_up, expires, receives, finishes, fetches, submits,
  delivers, Reach, start, next, begin, send, receive, finish, fetch, submit, deliver,
}

abbrev pub mailbox_of : Option (List PendingJob) → List PendingJob
mailbox_of none = []
mailbox_of (some q) = q

-- The jobs that wait for a node.
abbrev pub mailbox : PullDispatcher → String → List PendingJob
mailbox p n = mailbox_of (lookup n p.queues)

-- A dispatcher that differs from another in its mailboxes only at a node, where it has the list.
abbrev Puts : PullDispatcher → PullDispatcher → String → List PendingJob → Type 0
Puts p p' n q =
    ((j : String) → mailbox p' j ≡ (if str_eq n j then q else mailbox p j))
    × (p'.queue_depth ≡ p.queue_depth)

mailbox_of-if :
    (b : Bool) (q : List PendingJob) (o : Option (List PendingJob))
    → mailbox_of (if b then some q else o) ≡ (if b then q else mailbox_of o)
mailbox_of-if true q o = refl
mailbox_of-if false q o = refl

-- A write of a mailbox, over a dispatcher that differs there already.
insert-Puts :
    (p p' : PullDispatcher) (n : String) (q q' : List PendingJob)
    → Puts p p' n q
    → Puts p (record p' { queues = insert n q' p'.queues }) n q'
insert-Puts p p' n q q' h = (
  λ j.
      ap mailbox_of (lookup-insert n j q' p'.queues)
      ∙ (mailbox_of-if (str_eq n j) q' (lookup j p'.queues) ∙ elim (Bool-cases (str_eq n j)) [
        | inl same ↦ rw same
        | inr differs ↦ rw differs (h.0 j ∙ rw differs)
      ]),
  h.1,
)

self-Puts : (p : PullDispatcher) (n : String) → Puts p p n (mailbox p n)
self-Puts p n = (λ j. ground (arith, eq_iff n j), refl)

queue_for-Puts :
    (p : PullDispatcher) (n : String)
    → Puts p (queue_for p n).0 n (mailbox p n) × ((queue_for p n).1 ≡ mailbox p n)
unfolding queue_for
queue_for-Puts p n = elim (Option-cases (lookup n p.queues)) [
  | inl absent ↦ rw (absent, queue_for) (insert-Puts p p n (mailbox p n) [] (self-Puts p n), refl)
  | inr (q, there) ↦ rw (there, queue_for) (rw there at (self-Puts p n), refl)
]

List-cases :
    (q : List PendingJob) → (q ≡ []) ⊎ ((x : PendingJob) × (r : List PendingJob) × (q ≡ x ∷ r))
List-cases [] = inl refl
List-cases (x ∷ r) = inr (x, r, refl)

ltb→lt : (a b : ℕ) → ltb a b ≡ true → a < b
ltb→lt a b h = ground arith

try_enqueue-Puts :
    (p : PullDispatcher) (n : String) (job : JobSpec) (messages : List String)
    → let pending : PendingJob = record { job_id = job.job_id; job = job; messages = messages } in
      ((length (mailbox p n) < p.queue_depth)
        × ((try_enqueue p n job messages).1 ≡ true)
        × Puts p (try_enqueue p n job messages).0 n (mailbox p n ++ (pending ∷ [])))
      ⊎ (((try_enqueue p n job messages).1 ≡ false)
          × Puts p (try_enqueue p n job messages).0 n (mailbox p n))
unfolding try_enqueue
try_enqueue-Puts p n job messages =
    let (puts, same) = queue_for-Puts p n in
    elim (Bool-cases (ltb (length (queue_for p n).1) (queue_for p n).0.queue_depth)) [
      | inl room ↦
          rw (room, try_enqueue, same)
            (inl (
              rw (same, puts.1) at (ltb→lt _ _ room),
              refl,
              insert-Puts p (queue_for p n).0 n (mailbox p n) _ puts,
            ))
      | inr full ↦ rw (full, try_enqueue) (inr (refl, puts))
    ]

claim-Puts :
    (p : PullDispatcher) (n : String)
    → ((mailbox p n ≡ []) × ((claim p n).1 ≡ none) × Puts p (claim p n).0 n [])
      ⊎ ((job : PendingJob) × (rest : List PendingJob) × (mailbox p n ≡ job ∷ rest)
          × ((claim p n).1 ≡ some job)
          × Puts p (claim p n).0 n rest)
unfolding claim
claim-Puts p n =
    let (puts, same) = queue_for-Puts p n in
    elim (List-cases (queue_for p n).1) [
      | inl empty ↦ rw (empty, claim) (inl (sym same ∙ empty, refl, rw (sym same ∙ empty) at puts))
      | inr (job, rest, full) ↦
          rw (full, claim)
            (inr (
              job,
              rest,
              sym same ∙ full,
              refl,
              insert-Puts p (queue_for p n).0 n (mailbox p n) rest puts,
            ))
    ]

-- What a node was sent is what it claimed, then what waits, which fits its mailbox.
abbrev pub IsQueued :
    PullDispatcher → (String → List PendingJob) → (String → List PendingJob) → Type 0
IsQueued p sent claimed =
    ((n : String) → (sent n ≡ claimed n ++ mailbox p n) × (length (mailbox p n) ≤ p.queue_depth))
    × (p.queue_depth ≡ default_pull_queue_depth)

-- Only one node's mailbox and lists change.
IsQueued-Puts :
    (p p' : PullDispatcher) (sent claimed sent' claimed' : String → List PendingJob) (n : String)
    (q : List PendingJob)
    → IsQueued p sent claimed
    → Puts p p' n q
    → length q ≤ p.queue_depth
    → sent' n ≡ claimed' n ++ q
    → ((j : String) → str_eq n j ≡ false → (sent' j ≡ sent j) × (claimed' j ≡ claimed j))
    → IsQueued p' sent' claimed'
IsQueued-Puts p p' sent claimed sent' claimed' n q h puts small here others = (
  λ j. elim (String-cases n j) [
    | inl same ↦
        (let box : mailbox p' j ≡ q = puts.0 j ∙ rw (same, eq_refl j) in
          (rw (box, ← same) here, rw (box, puts.1) small))
    | inr differs ↦
        (let box : mailbox p' j ≡ mailbox p j = puts.0 j ∙ rw differs in
          (
            rw (box, (others j differs).0, (others j differs).1) (h.0 j).0,
            rw (box, puts.1) (h.0 j).1,
          ))
  ],
  puts.1 ∙ h.1,
)

-- A queue with one more at its end.
append_snoc :
    (xs ys : List PendingJob) (x : PendingJob) → (xs ++ ys) ++ (x ∷ []) ≡ xs ++ (ys ++ (x ∷ []))
append_snoc xs ys x = simp (append_assoc)

append_move : (xs ys : List PendingJob) (x : PendingJob) → xs ++ (x ∷ ys) ≡ (xs ++ (x ∷ [])) ++ ys
append_move xs ys x = simp (append_assoc)

send-IsQueued :
    (s : System) (c : ℕ)
    → IsQueued s.dispatcher s.sent s.claimed
    → IsQueued (send s c).dispatcher (send s c).sent (send s c).claimed
unfolding send
send-IsQueued s c h =
    let k = s.calls c in
    elim (try_enqueue-Puts s.dispatcher k.node_id k.job k.messages) [
      | inl (room, sent, puts) ↦
          rw (sent, send)
            (IsQueued-Puts s.dispatcher (try_enqueue s.dispatcher k.node_id k.job k.messages).0
              s.sent s.claimed _ s.claimed k.node_id _ h puts
              (omega
                (arith, length-append (mailbox s.dispatcher k.node_id) (pending_of k ∷ []), room))
              (rw (eq_refl k.node_id, (h.0 k.node_id).0)
                (append_snoc (s.claimed k.node_id) _ (pending_of k)))
              (λ j differs. (rw differs, refl)))
      | inr (full, puts) ↦
          rw (full, send)
            (IsQueued-Puts s.dispatcher (try_enqueue s.dispatcher k.node_id k.job k.messages).0
              s.sent s.claimed s.sent s.claimed k.node_id _ h puts (h.0 k.node_id).1
              (h.0 k.node_id).0 (λ j differs. (refl, refl)))
    ]

fetch-IsQueued :
    (s : System) (n : String)
    → IsQueued s.dispatcher s.sent s.claimed
    → IsQueued (fetch s n).dispatcher (fetch s n).sent (fetch s n).claimed
unfolding fetch
fetch-IsQueued s n h = elim (claim-Puts s.dispatcher n) [
  | inl (empty, nothing, puts) ↦
      rw (nothing, fetch)
        (IsQueued-Puts s.dispatcher (claim s.dispatcher n).0 s.sent s.claimed s.sent s.claimed n []
          h puts (omega arith) (rw empty at (h.0 n).0) (λ j differs. (refl, refl)))
  | inr (job, rest, waits, taken, puts) ↦
      rw (taken, fetch)
        (IsQueued-Puts s.dispatcher (claim s.dispatcher n).0 s.sent s.claimed s.sent _ n rest h puts
          (omega (arith, rw waits at (h.0 n).1))
          (rw (eq_refl n) ((rw waits at (h.0 n).0) ∙ append_move (s.claimed n) rest job))
          (λ j differs. (refl, rw differs)))
]

start-IsQueued : IsQueued new_pull_dispatcher (λ _. []) (λ _. [])
unfolding new_pull_dispatcher lookup
start-IsQueued = (λ n. (refl, omega arith), refl)

Step-IsQueued :
    {s t : System}
    → IsQueued s.dispatcher s.sent s.claimed
    → Step s t
    → IsQueued t.dispatcher t.sent t.claimed
unfolding begin receive finish submit deliver add_waiter delete_waiter
Step-IsQueued h (begins c n job messages e) = h
Step-IsQueued {s} h (sends c e) = send-IsQueued s c h
Step-IsQueued h (gives_up c e) = h
Step-IsQueued h (expires c e) = h
Step-IsQueued h (receives c r e f) = h
Step-IsQueued h (finishes c o e) = h
Step-IsQueued {s} h (fetches n) = fetch-IsQueued s n h
Step-IsQueued h (submits k j r e) = h
Step-IsQueued h (delivers k j c r e) = h

-- In every state that any interleaving of dispatches, claims, results and timeouts leads to, the jobs
-- that a node was sent are, in order, those that it claimed and then those that wait in its mailbox: no
-- job is lost, claimed twice, claimed by another node or out of turn. And no mailbox holds more than
-- 16 jobs.
pub mailbox-IsFifo :
    (s : System) (n : String)
    → Reach s
    → (s.sent n ≡ s.claimed n ++ mailbox s.dispatcher n) × (length (mailbox s.dispatcher n) ≤ 16)
mailbox-IsFifo s n r = let (h, depth) = queued r in ((h n).0, omega (arith, (h n).1, depth))
  where
    queued : {t : System} → Reach t → IsQueued t.dispatcher t.sent t.claimed
    queued start = start-IsQueued
    queued (next r step) = Step-IsQueued (queued r) step
