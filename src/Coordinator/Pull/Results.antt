-- ===== src/Coordinator/Pull/Results.antt =====
-- What a call of `Dispatch` gets was handed in for its job.
use mlx_mesh.Base.{
  ℕ, ◌≡◌, ◌≢◌, ◌⊎◌, refl, sym, ◌∙◌, ap, inl, inr, Bool, true, false, Option, none, some, List, [],
  ◌∷◌, String, String-cases, Bool-cases, Option-cases, ℕ-cases, ==_self, arith, eq_refl,
  none-ne-some, true-ne-false,
}
use mlx_mesh.Base.Dict.{Dict, lookup, lookup-insert, lookup-erase, lookup-nil}
use mlx_mesh.Coordinator.Router.{JobSpec}
use mlx_mesh.Coordinator.Pull.{
  JobResult, PullDispatcher, new_pull_dispatcher, queue_for, add_waiter, try_enqueue, delete_waiter,
  claim, find_waiter, offer,
}
use mlx_mesh.Coordinator.Pull.System.{
  System, Step, begins, sends, gives_up, expires, receives, finishes, fetches, submits, delivers,
  Reach, start, next, begin, send, receive, finish, fetch, submit, deliver, Call, Phase, idle,
  registered, enqueued, returning, returned, Outcome, delivered, queue_full, expired, Submission,
  found, answered, update, initial,
}

abbrev pub has_begun : Phase → Bool
has_begun idle = false
has_begun registered = true
has_begun enqueued = true
has_begun (returning o) = true
has_begun (returned o) = true

abbrev pub outcome_of : Phase → Option Outcome
outcome_of idle = none
outcome_of registered = none
outcome_of enqueued = none
outcome_of (returning o) = some o
outcome_of (returned o) = some o

-- The result was handed in for the job.
abbrev pub HandedIn : String → JobResult → List (String × JobResult) → Type 0
HandedIn j r [] = ⊥
HandedIn j r (x ∷ xs) = ((x.0 ≡ j) × (x.1 ≡ r)) ⊎ HandedIn j r xs

-- A call that runs, or ran, for a job.
abbrev pub IsFor : (ℕ → Call) → ℕ → String → Type 0
IsFor calls c j = (has_begun (calls c).phase ≡ true) × ((calls c).job.job_id ≡ j)

-- Every waiter, every channel that is about to be written, every buffer and every result that was
-- returned belongs to its job.
abbrev pub WaitersMatch : (ℕ → Call) → Dict ℕ → Type 0
WaitersMatch calls w = (j : String) (c : ℕ) → lookup j w ≡ some c → IsFor calls c j

abbrev pub SubmissionsMatch : (ℕ → Call) → List (String × JobResult) → (ℕ → Submission) → Type 0
SubmissionsMatch calls l f =
    (k : ℕ) (j : String) (c : ℕ) (r : JobResult)
    → f k ≡ found j c r
    → IsFor calls c j × HandedIn j r l

abbrev pub BuffersMatch : (ℕ → Call) → List (String × JobResult) → (ℕ → Option JobResult) → Type 0
BuffersMatch calls l b =
    (c : ℕ) (r : JobResult)
    → b c ≡ some r
    → (has_begun (calls c).phase ≡ true) × HandedIn (calls c).job.job_id r l

abbrev pub OutcomesMatch : (ℕ → Call) → List (String × JobResult) → Type 0
OutcomesMatch calls l =
    (c : ℕ) (r : JobResult)
    → outcome_of (calls c).phase ≡ some (delivered r)
    → HandedIn (calls c).job.job_id r l

-- Later calls: those that have begun go on with their jobs.
abbrev Later : (ℕ → Call) → (ℕ → Call) → Type 0
Later calls calls' =
    (c : ℕ)
    → has_begun (calls c).phase ≡ true
    → (has_begun (calls' c).phase ≡ true) × ((calls' c).job ≡ (calls c).job)

abbrev pub IsMatched : System → Type 0
IsMatched s =
    WaitersMatch s.calls s.dispatcher.waiters
    × SubmissionsMatch s.calls s.handed_in s.submissions
    × BuffersMatch s.calls s.handed_in s.channels
    × OutcomesMatch s.calls s.handed_in

some_inj {ℓ} : {A : Type ℓ} (a b : A) → ◌≡◌ {A = Option A} (some a) (some b) → a ≡ b
some_inj a b e = cc

set_phase-Later :
    (calls : ℕ → Call) (c : ℕ) (p : Phase)
    → has_begun p ≡ true
    → Later calls (update calls c (record (calls c) { phase = p }))
set_phase-Later calls c p e k h = elim (ℕ-cases k c) [
  | inl same ↦ rw same (ground arith)
  | inr other ↦ rw other (h, refl)
]

begin-Later :
    (calls : ℕ → Call) (c : ℕ) (v : Call) → (calls c).phase ≡ idle → Later calls (update calls c v)
begin-Later calls c v e k h = elim (ℕ-cases k c) [
  | inl same ↦ absurd (true-ne-false (sym (rw same at h) ∙ ap has_begun e))
  | inr other ↦ rw other (h, refl)
]

Waiters-Later :
    (calls calls' : ℕ → Call) (w : Dict ℕ)
    → Later calls calls'
    → WaitersMatch calls w
    → WaitersMatch calls' w
Waiters-Later calls calls' w l h j c e =
    let (a, b) = h j c e in ((l c a).0, ap (λ (x : JobSpec). x.job_id) (l c a).1 ∙ b)

Submissions-Later :
    (calls calls' : ℕ → Call) (xs : List (String × JobResult)) (f : ℕ → Submission)
    → Later calls calls'
    → SubmissionsMatch calls xs f
    → SubmissionsMatch calls' xs f
Submissions-Later calls calls' xs f l h k j c r e =
    let ((a, b), d) = h k j c r e in (((l c a).0, ap (λ (x : JobSpec). x.job_id) (l c a).1 ∙ b), d)

Buffers-Later :
    (calls calls' : ℕ → Call) (xs : List (String × JobResult)) (f : ℕ → Option JobResult)
    → Later calls calls'
    → BuffersMatch calls xs f
    → BuffersMatch calls' xs f
Buffers-Later calls calls' xs f l h c r e = let (a, d) = h c r e in ((l c a).0, rw (l c a).1 d)

-- A call gets a new phase: its outcome must match.
Outcomes-set :
    (calls : ℕ → Call) (xs : List (String × JobResult)) (c : ℕ) (v : Call)
    → OutcomesMatch calls xs
    → ((r : JobResult) → outcome_of v.phase ≡ some (delivered r) → HandedIn v.job.job_id r xs)
    → OutcomesMatch (update calls c v) xs
Outcomes-set calls xs c v h new k r e = elim (ℕ-cases k c) [
  | inl same ↦ rw (same, ==_self) (new r (rw (same, ==_self) at e))
  | inr other ↦ rw other (h k r (rw other at e))
]

-- The result of a call is read only if it has one.
no_outcome : (o : Option Outcome) (r : JobResult) → o ≡ none → o ≢ some (delivered r)
no_outcome o r e h = cc

set_phase-IsMatched :
    (s : System) (c : ℕ) (p : Phase) (d : PullDispatcher)
    → IsMatched s
    → has_begun p ≡ true
    → ((r : JobResult)
        → outcome_of p ≡ some (delivered r)
        → HandedIn (s.calls c).job.job_id r s.handed_in)
    → WaitersMatch s.calls d.waiters
    → IsMatched
        (record s { dispatcher = d; calls = update s.calls c (record (s.calls c) { phase = p }) })
set_phase-IsMatched s c p d h begun new waits =
    let l = set_phase-Later s.calls c p begun in
    let calls' = update s.calls c (record (s.calls c) { phase = p }) in
    (
      Waiters-Later s.calls calls' d.waiters l waits,
      Submissions-Later s.calls calls' s.handed_in s.submissions l h.1,
      Buffers-Later s.calls calls' s.handed_in s.channels l h.2,
      Outcomes-set s.calls s.handed_in c (record (s.calls c) { phase = p }) h.3 new,
    )

begin-IsMatched :
    (s : System) (c : ℕ) (n : String) (job : JobSpec) (messages : List String)
    → IsMatched s
    → (s.calls c).phase ≡ idle
    → IsMatched (begin s c n job messages)
unfolding begin add_waiter
begin-IsMatched s c n job messages h e =
    let v : Call = record { node_id = n; job = job; messages = messages; phase = registered } in
    let l = begin-Later s.calls c v e in
    let calls' = update s.calls c v in
    (
      λ j k there. elim (String-cases job.job_id j) [
        | inl same ↦
            (let own : c ≡ k = some_inj c k (rw (lookup-insert, same, eq_refl) at there) in
              rw (← own, ==_self) (refl, same))
        | inr differs ↦
            Waiters-Later s.calls calls' s.dispatcher.waiters l h.0 j k
              (rw (lookup-insert, differs) at there)
      ],
      Submissions-Later s.calls calls' s.handed_in s.submissions l h.1,
      λ k r full. elim (ℕ-cases k c) [
        | inl same ↦ absurd (none-ne-some r (rw (same, ==_self) at full))
        | inr other ↦
            Buffers-Later s.calls calls' s.handed_in s.channels l h.2 k r (rw other at full)
      ],
      Outcomes-set s.calls s.handed_in c v h.3 (λ r e. absurd (none-ne-some _ e)),
    )

finish-IsMatched :
    (s : System) (c : ℕ) (o : Outcome)
    → IsMatched s
    → (s.calls c).phase ≡ returning o
    → IsMatched (finish s c o)
unfolding finish delete_waiter
finish-IsMatched s c o h e =
    set_phase-IsMatched s c (returned o) (delete_waiter s.dispatcher (s.calls c).job) h refl
      (λ r same. h.3 c r (ap outcome_of e ∙ same))
      (λ j k there. elim (String-cases (s.calls c).job.job_id j) [
        | inl same ↦ absurd (none-ne-some k (rw (lookup-erase, same, eq_refl) at there))
        | inr differs ↦ h.0 j k (rw (lookup-erase, differs) at there)
      ])

receive-IsMatched :
    (s : System) (c : ℕ) (r : JobResult)
    → IsMatched s
    → s.channels c ≡ some r
    → IsMatched (receive s c r)
unfolding receive
receive-IsMatched s c r h full =
    let (w, f, b, d) =
      set_phase-IsMatched s c (returning (delivered r)) s.dispatcher h refl
        (λ r' same. let e : r ≡ r' = cc in rw (← e) (h.2 c r full).1) h.0 in
    (
      w,
      f,
      λ k r' there. elim (ℕ-cases k c) [
        | inl same ↦ absurd (none-ne-some r' (rw (same, ==_self) at there))
        | inr other ↦ b k r' (rw other at there)
      ],
      d,
    )

queue_for-waiters : (p : PullDispatcher) (n : String) → (queue_for p n).0.waiters ≡ p.waiters
unfolding queue_for
queue_for-waiters p n = ground arith

try_enqueue-waiters :
    (p : PullDispatcher) (n : String) (job : JobSpec) (messages : List String)
    → (try_enqueue p n job messages).0.waiters ≡ p.waiters
unfolding try_enqueue
try_enqueue-waiters p n job messages = ground (arith, queue_for-waiters p n)

claim-waiters : (p : PullDispatcher) (n : String) → (claim p n).0.waiters ≡ p.waiters
unfolding claim
claim-waiters p n = ground (arith, queue_for-waiters p n)

send-IsMatched : (s : System) (c : ℕ) → IsMatched s → IsMatched (send s c)
unfolding send
send-IsMatched s c h =
    let k = s.calls c in
    let p = (try_enqueue s.dispatcher k.node_id k.job k.messages).0 in
    let kept : WaitersMatch s.calls p.waiters =
      rw (try_enqueue-waiters s.dispatcher k.node_id k.job k.messages) h.0 in
    elim (Bool-cases (try_enqueue s.dispatcher k.node_id k.job k.messages).1) [
      | inl ok ↦
          rw (ok, send)
            (set_phase-IsMatched s c enqueued p h refl (λ r e. absurd (none-ne-some _ e)) kept)
      | inr full ↦
          rw (full, send)
            (set_phase-IsMatched s c (returning queue_full) p h refl (λ r e. absurd (cc e)) kept)
    ]

fetch-IsMatched : (s : System) (n : String) → IsMatched s → IsMatched (fetch s n)
unfolding fetch
fetch-IsMatched s n h =
    let kept : WaitersMatch s.calls (claim s.dispatcher n).0.waiters =
      rw (claim-waiters s.dispatcher n) h.0 in
    elim (Option-cases (claim s.dispatcher n).1) [
      | inl nothing ↦ rw (nothing, fetch) (kept, h.1, h.2, h.3)
      | inr (job, taken) ↦ rw (taken, fetch) (kept, h.1, h.2, h.3)
    ]

submit-IsMatched :
    (s : System) (k : ℕ) (j : String) (r : JobResult) → IsMatched s → IsMatched (submit s k j r)
unfolding submit find_waiter
submit-IsMatched s k j r h = (
  h.0,
  λ i j' c r' there. elim (ℕ-cases i k) [
    | inr other ↦ (let (own, handed) = h.1 i j' c r' (rw other at there) in (own, inr handed))
    | inl same ↦ elim (Option-cases (lookup j s.dispatcher.waiters)) [
      | inl nobody ↦ absurd (not_found _ _ _ _ (rw (same, ==_self, nobody) at there))
      | inr (c', waits) ↦ found_new j' c r' c' waits (rw (same, ==_self, waits) at there)
    ]
  ],
  λ c r' full. (let (own, handed) = h.2 c r' full in (own, inr handed)),
  λ c r' e. inr (h.3 c r' e),
)
  where
    not_found : (b : Bool) (j' : String) (c : ℕ) (r' : JobResult) → answered b ≢ found j' c r'
    not_found b j' c r' e = cc

    found_new :
        (j' : String) (c : ℕ) (r' : JobResult) (c' : ℕ)
        → lookup j s.dispatcher.waiters ≡ some c'
        → ◌≡◌ {A = Submission} (found j c' r) (found j' c r')
        → IsFor s.calls c j' × HandedIn j' r' ((j, r) ∷ s.handed_in)
    found_new j' c r' c' waits e =
        let job : j ≡ j' = cc in
        let channel : c' ≡ c = cc in
        let reply : r ≡ r' = cc in (rw (← job, ← channel) (h.0 j c' waits), inl (job, reply))

deliver-IsMatched :
    (s : System) (k : ℕ) (j : String) (c : ℕ) (r : JobResult)
    → IsMatched s
    → s.submissions k ≡ found j c r
    → IsMatched (deliver s k c r)
unfolding deliver offer
deliver-IsMatched s k j c r h e = (
  h.0,
  λ i j' c' r' there. elim (ℕ-cases i k) [
    | inl same ↦ absurd (not_found _ j' c' r' (rw (same, ==_self) at there))
    | inr other ↦ h.1 i j' c' r' (rw other at there)
  ],
  λ i r' full. elim (ℕ-cases i c) [
    | inr other ↦ h.2 i r' (rw other at full)
    | inl same ↦ rw same (elim (Option-cases (s.channels c)) [
      | inl free ↦ fresh r' (rw (same, ==_self, free) at full)
      | inr (old, taken) ↦ h.2 c r' (taken ∙ rw (same, ==_self, taken) at full)
    ])
  ],
  h.3,
)
  where
    not_found : (b : Bool) (j' : String) (c : ℕ) (r' : JobResult) → answered b ≢ found j' c r'
    not_found b j' c r' e = cc

    fresh :
        (r' : JobResult)
        → ◌≡◌ {A = Option JobResult} (some r) (some r')
        → (has_begun (s.calls c).phase ≡ true) × HandedIn (s.calls c).job.job_id r' s.handed_in
    fresh r' same =
        let ((begun, job), handed) = h.1 k j c r e in (begun, rw (job, ← some_inj r r' same) handed)

Step-IsMatched : {s t : System} → IsMatched s → Step s t → IsMatched t
Step-IsMatched {s} h (begins c n job messages e) = begin-IsMatched s c n job messages h e
Step-IsMatched {s} h (sends c e) = send-IsMatched s c h
Step-IsMatched {s} h (gives_up c e) =
    set_phase-IsMatched s c (returning expired) s.dispatcher h refl (λ r e. absurd (cc e)) h.0
Step-IsMatched {s} h (expires c e) =
    set_phase-IsMatched s c (returning expired) s.dispatcher h refl (λ r e. absurd (cc e)) h.0
Step-IsMatched {s} h (receives c r e f) = receive-IsMatched s c r h f
Step-IsMatched {s} h (finishes c o e) = finish-IsMatched s c o h e
Step-IsMatched {s} h (fetches n) = fetch-IsMatched s n h
Step-IsMatched {s} h (submits k j r e) = submit-IsMatched s k j r h
Step-IsMatched {s} h (delivers k j c r e) = deliver-IsMatched s k j c r h e

initial-IsMatched : IsMatched initial
unfolding new_pull_dispatcher
initial-IsMatched = (
  λ j c e. absurd (none-ne-some c (sym (lookup-nil j) ∙ e)),
  λ k j c r e. absurd (cc e),
  λ c r e. absurd (none-ne-some r e),
  λ c r e. absurd (none-ne-some (delivered r) e),
)

pub Reach-IsMatched : {s : System} → Reach s → IsMatched s
Reach-IsMatched start = initial-IsMatched
Reach-IsMatched (next r step) = Step-IsMatched (Reach-IsMatched r) step

-- Whatever the interleaving of dispatches, claims, results and timeouts, a result that a dispatch
-- returns was handed in under the identifier of that dispatch's job: no caller is given the answer to
-- another job.
pub outcome-HandedIn :
    (s : System) (c : ℕ) (r : JobResult)
    → Reach s
    → outcome_of (s.calls c).phase ≡ some (delivered r)
    → HandedIn (s.calls c).job.job_id r s.handed_in
outcome-HandedIn s c r reached e = (Reach-IsMatched reached).3 c r e
