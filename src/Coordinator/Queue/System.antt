-- ===== src/Coordinator/Queue/System.antt =====
-- The queue with the calls of `Enqueue` and the workers that run on it.
use mlx_mesh.Base.{
  ℕ, ◌*◌, ◌/◌, ◌≤◌, ◌<◌, ◌≡◌, ◌↔◌, refl, sym, ◌∙◌, inl, inr, true, false, none, some, List, [], ◌∷◌,
  ◌++◌, ltb, leb, ◌==◌, if◌then◌else◌, length, length-append, Bool-cases, arith,
}
use mathlib.Core.List.{append_assoc}
use native.Mathlib.Nat.{le-div_iff_mul-le, div-le_of_le-mul}
use mlx_mesh.Coordinator.Queue.{
  NodeSnapshot, JobQueue, new_job_queue, retarget, admits, push, pop, backpressure_pct,
}
use mlx_mesh.Coordinator.Queue.Capacity.{clamp_int_bounds, compute_queue_capacity_bounds}

-- A call of `Enqueue` is admitted, then waits or is refused.
pub data Entry : Type 0 where
  fresh admitted waiting refused : Entry

-- The calls by number, and the jobs that were ever put in the queue and taken by workers, oldest first.
pub record System : Type 0 where
  pub queue : JobQueue
  pub calls : ℕ → Entry
  pub submitted : List ℕ
  pub started : List ℕ

abbrev mark : (ℕ → Entry) → ℕ → Entry → ℕ → Entry
mark f k e j = if j == k then e else f j

abbrev pub initial : ℕ → System
initial capacity = record {
  queue = new_job_queue capacity;
  calls = λ _. fresh;
  submitted = [];
  started = [];
}

unfoldable pub arrive : System → ℕ → System
arrive s c = record s { calls = mark s.calls c (if admits s.queue then admitted else refused) }

unfoldable pub enter : System → ℕ → System
enter s c =
    let (q, ok) = push s.queue c in
    if ok
    then record s { queue = q; calls = mark s.calls c waiting; submitted = s.submitted ++ (c ∷ []) }
    else record s { calls = mark s.calls c refused }

unfoldable pub work : System → System
work s =
    let (q, job) = pop s.queue in
    elim job [ none ↦ s | some c ↦ record s { queue = q; started = s.started ++ (c ∷ []) } ]

unfoldable pub retarget_loop : System → List NodeSnapshot → System
retarget_loop s nodes = record s { queue = retarget s.queue nodes }

pub data Step (s : System) : System → Type 0 where
  arrives : (c : ℕ) → s.calls c ≡ fresh → Step s (arrive s c)
  enters : (c : ℕ) → s.calls c ≡ admitted → Step s (enter s c)
  works : Step s (work s)
  retargets : (nodes : List NodeSnapshot) → Step s (retarget_loop s nodes)

pub data Reach (capacity : ℕ) : System → Type 0 where
  start : Reach capacity (initial capacity)
  next : {s t : System} → Reach capacity s → Step s t → Reach capacity t

-- The queue is a FIFO within its bounds.
abbrev pub IsQueue : System → Type 0
IsQueue s =
    (s.submitted ≡ s.started ++ s.queue.ch)
    × (length s.queue.ch ≤ 500)
    × (10 ≤ s.queue.capacity)
    × (s.queue.capacity ≤ 500)

ltb→lt : (a b : ℕ) → ltb a b ≡ true → a < b
ltb→lt a b h = ground arith

enter-IsQueue : (s : System) (c : ℕ) → IsQueue s → IsQueue (enter s c)
unfolding enter push
enter-IsQueue s c h = elim (Bool-cases (ltb (length s.queue.ch) 500)) [
  | inl room ↦
      rw (room, enter, push)
        (
          rw h.0 (append_assoc s.started s.queue.ch (c ∷ [])),
          omega (arith, length-append s.queue.ch (c ∷ []), ltb→lt (length s.queue.ch) 500 room),
          h.2,
          h.3,
        )
  | inr full ↦ rw (full, enter, push) h
]

pop-nil : (q : JobQueue) → q.ch ≡ [] → (pop q).1 ≡ none
unfolding pop
pop-nil q e = rw (e, pop)

pop-cons :
    (q : JobQueue) (c : ℕ) (rest : List ℕ)
    → q.ch ≡ c ∷ rest
    → pop q ≡ (record q { ch = rest }, some c)
unfolding pop
pop-cons q c rest e = rw (e, pop)

work-IsQueue : (s : System) → IsQueue s → IsQueue (work s)
unfolding work
work-IsQueue s h = go s.queue.ch refl
  where
    go : (ch : List ℕ) → s.queue.ch ≡ ch → IsQueue (work s)
    go [] e = rw (pop-nil s.queue e, work) h
    go (c ∷ rest) e =
        rw (pop-cons s.queue c rest e, work, pop-cons s.queue c rest e)
          (
            (rw e at h.0) ∙ sym (append_assoc s.started (c ∷ []) rest),
            omega (arith, rw e at h.1),
            h.2,
            h.3,
          )

abbrev no_node : NodeSnapshot
no_node = record { status = ""; measured_toks_per_sec = 0 }

Step-IsQueue : {s t : System} → IsQueue s → Step s t → IsQueue t
unfolding arrive retarget_loop retarget
Step-IsQueue h (arrives c e) = h
Step-IsQueue {s} h (enters c e) = enter-IsQueue s c h
Step-IsQueue {s} h works = work-IsQueue s h
Step-IsQueue {s} h (retargets nodes) =
    let (low, high, _) = compute_queue_capacity_bounds no_node nodes in (h.0, h.1, low, high)

start-IsQueue : (capacity : ℕ) → IsQueue (initial capacity)
unfolding new_job_queue
start-IsQueue capacity =
    (refl, omega arith, (clamp_int_bounds capacity).0, (clamp_int_bounds capacity).1)

-- In every state that any interleaving of calls, workers and retargets leads to, the jobs that were put
-- in the queue are, in order, those that a worker took and then those that wait; at most 500 wait; and
-- the capacity is between 10 and 500.
pub Reach-IsQueue : (capacity : ℕ) (s : System) → Reach capacity s → IsQueue s
Reach-IsQueue capacity s start = start-IsQueue capacity
Reach-IsQueue capacity s (next {s = t} r step) = Step-IsQueue (Reach-IsQueue capacity t r) step

saturation :
    (n c : ℕ)
    → n ≤ 500
    → 10 ≤ c
    → c ≤ 500
    → ((n * 100 * 1000000 / c ≤ 100 * 1000000) ↔ (n ≤ c)) × (n * 100 * 1000000 / c ≤ 5000 * 1000000)
saturation n c few low high = (
  (
    λ h. elim (Bool-cases (leb n c)) [
      | inl fits ↦ ground arith
      | inr over ↦
          (let more : 100000001 ≤ n * 100 * 1000000 / c =
              (le-div_iff_mul-le (omega (arith, low))).1 (ground arith) in
            omega (arith, h, more))
    ],
    λ h. div-le_of_le-mul c (omega (arith, h)),
  ),
  div-le_of_le-mul c (omega (arith, few, low)),
)

-- The backpressure is at most 100 % if and only if no more jobs wait than the capacity admits; and in
-- every reachable state it is at most 5000 %, since 500 jobs may wait when the capacity falls to 10.
pub backpressure_pct_bounds :
    (capacity : ℕ) (s : System)
    → Reach capacity s
    → ((backpressure_pct s.queue ≤ 100 * 1000000) ↔ (length s.queue.ch ≤ s.queue.capacity))
      × (backpressure_pct s.queue ≤ 5000 * 1000000)
unfolding backpressure_pct
backpressure_pct_bounds capacity s r =
    let (_, few, low, high) = Reach-IsQueue capacity s r in
    let set : (s.queue.capacity == 0) ≡ false = ground arith in
    rw (set, backpressure_pct) (saturation (length s.queue.ch) s.queue.capacity few low high)
