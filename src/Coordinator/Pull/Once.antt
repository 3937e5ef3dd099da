-- ===== src/Coordinator/Pull/Once.antt =====
-- How often a result is accepted for one call of `Dispatch`.
use mlx_mesh.Base.{
  ℕ, suc, ◌+◌, ◌≤◌, ◌≡◌, ◌⊎◌, refl, sym, inl, inr, true, false, Option, none, some, List, String,
  Bool-cases, Option-cases, ℕ-cases, ==_self, arith, if◌then◌else◌, true-ne-false,
}
use mlx_mesh.Coordinator.Router.{JobSpec}
use mlx_mesh.Coordinator.Pull.{JobResult, try_enqueue, claim, offer}
use mlx_mesh.Coordinator.Pull.System.{
  System, Step, begins, sends, gives_up, expires, receives, finishes, fetches, submits, delivers,
  Reach, start, next, begin, send, receive, finish, fetch, submit, deliver, Phase, idle, registered,
  enqueued, returning, returned, Outcome, delivered, queue_full, expired, found, set_phase,
}
use mlx_mesh.Coordinator.Pull.Results.{has_begun, outcome_of, IsMatched, Reach-IsMatched}

-- The results in a buffer, and those that a call took out of it.
abbrev pub held : Option JobResult → ℕ
held none = 0
held (some _) = 1

abbrev pub taken : Option Outcome → ℕ
taken (some (delivered _)) = 1
taken (some queue_full) = 0
taken (some expired) = 0
taken none = 0

-- What a channel accepted is what it holds and what was taken out of it; before its call it is empty.
abbrev Counts : ℕ → Option JobResult → Phase → Type 0
Counts accepted buffer phase =
    (accepted ≡ held buffer + taken (outcome_of phase))
    × ((has_begun phase ≡ true) ⊎ ((has_begun phase ≡ false) × (held buffer ≡ 0)))

abbrev IsCounted : System → Type 0
IsCounted s = (k : ℕ) → Counts (s.accepted k) (s.channels k) (s.calls k).phase

-- A call gets a phase that takes as much as the one before.
set_phase-IsCounted :
    (s : System) (c : ℕ) (p : Phase)
    → IsCounted s
    → has_begun p ≡ true
    → taken (outcome_of p) ≡ taken (outcome_of (s.calls c).phase)
    → IsCounted (set_phase s c p)
set_phase-IsCounted s c p h begun same k = elim (ℕ-cases k c) [
  | inl here ↦ rw (here, ==_self, same) ((h c).0, inl begun)
  | inr other ↦ rw other (h k)
]

nothing_idle : (n : ℕ) (b : Option JobResult) → Counts n b idle → n ≡ 0 + 0
nothing_idle n b (e, inl h) = absurd (true-ne-false (sym h))
nothing_idle n b (e, inr (_, empty)) = omega (arith, e, empty)

held_le : (b : Option JobResult) → held b ≤ 1
held_le none = omega arith
held_le (some _) = omega arith

taken_le : (o : Option Outcome) → taken o ≤ 1
taken_le (some (delivered _)) = omega arith
taken_le (some queue_full) = omega arith
taken_le (some expired) = omega arith
taken_le none = omega arith

finish-IsCounted :
    (s : System) (c : ℕ) (o : Outcome)
    → IsCounted s
    → (s.calls c).phase ≡ returning o
    → IsCounted (finish s c o)
unfolding finish
finish-IsCounted s c o h e = set_phase-IsCounted s c (returned o) h refl (rw e refl)

begin-IsCounted :
    (s : System) (c : ℕ) (n : String) (job : JobSpec) (messages : List String)
    → IsCounted s
    → (s.calls c).phase ≡ idle
    → IsCounted (begin s c n job messages)
unfolding begin
begin-IsCounted s c n job messages h e k = elim (ℕ-cases k c) [
  | inl here ↦ rw (here, ==_self) (nothing (h c), inl refl)
  | inr other ↦ rw other (h k)
]
  where
    nothing : Counts (s.accepted c) (s.channels c) (s.calls c).phase → s.accepted c ≡ 0 + 0
    nothing x = nothing_idle (s.accepted c) (s.channels c) (rw e at x)

receive-IsCounted :
    (s : System) (c : ℕ) (r : JobResult)
    → IsCounted s
    → (s.calls c).phase ≡ enqueued
    → s.channels c ≡ some r
    → IsCounted (receive s c r)
unfolding receive
receive-IsCounted s c r h e full k = elim (ℕ-cases k c) [
  | inl here ↦ rw (here, ==_self) (rw (e, full) at (h c).0, inl refl)
  | inr other ↦ rw other (h k)
]

send-IsCounted :
    (s : System) (c : ℕ) → IsCounted s → (s.calls c).phase ≡ registered → IsCounted (send s c)
unfolding send
send-IsCounted s c h e =
    let k = s.calls c in
    elim (Bool-cases (try_enqueue s.dispatcher k.node_id k.job k.messages).1) [
      | inl ok ↦ rw (ok, send) (set_phase-IsCounted s c enqueued h refl (rw e refl))
      | inr full ↦
          rw (full, send) (set_phase-IsCounted s c (returning queue_full) h refl (rw e refl))
    ]

fetch-IsCounted : (s : System) (n : String) → IsCounted s → IsCounted (fetch s n)
unfolding fetch
fetch-IsCounted s n h = elim (Option-cases (claim s.dispatcher n).1) [
  | inl nothing ↦ rw (nothing, fetch) h
  | inr (job, got) ↦ rw (got, fetch) h
]

offer_lem :
    (n : ℕ) (b : Option JobResult) (r : JobResult) (p : Phase)
    → Counts n b p
    → has_begun p ≡ true
    → Counts (if (offer b r).1 then suc n else n) (offer b r).0 p
unfolding offer
offer_lem n none r p h begun = (omega (arith, h.0), inl begun)
offer_lem n (some old) r p h begun = (h.0, inl begun)

deliver-IsCounted :
    (s : System) (k : ℕ) (j : String) (c : ℕ) (r : JobResult)
    → IsCounted s
    → IsMatched s
    → s.submissions k ≡ found j c r
    → IsCounted (deliver s k c r)
unfolding deliver
deliver-IsCounted s k j c r h m e i = elim (ℕ-cases i c) [
  | inl here ↦
      rw (here, ==_self)
        (offer_lem (s.accepted c) (s.channels c) r (s.calls c).phase (h c) (m.1 k j c r e).0.0)
  | inr other ↦ rw other (h i)
]

Step-IsCounted : {s t : System} → IsMatched s → IsCounted s → Step s t → IsCounted t
unfolding submit
Step-IsCounted {s} m h (begins c n job messages e) = begin-IsCounted s c n job messages h e
Step-IsCounted {s} m h (sends c e) = send-IsCounted s c h e
Step-IsCounted {s} m h (gives_up c e) =
    set_phase-IsCounted s c (returning expired) h refl (rw e refl)
Step-IsCounted {s} m h (expires c e) =
    set_phase-IsCounted s c (returning expired) h refl (rw e refl)
Step-IsCounted {s} m h (receives c r e f) = receive-IsCounted s c r h e f
Step-IsCounted {s} m h (finishes c o e) = finish-IsCounted s c o h e
Step-IsCounted {s} m h (fetches n) = fetch-IsCounted s n h
Step-IsCounted {s} m h (submits k j r e) = h
Step-IsCounted {s} m h (delivers k j c r e) = deliver-IsCounted s k j c r h m e

Reach-IsCounted : {s : System} → Reach s → IsCounted s
Reach-IsCounted start = λ k. (omega arith, inr (refl, refl))
Reach-IsCounted (next r step) = Step-IsCounted (Reach-IsMatched r) (Reach-IsCounted r) step

-- In every reachable state, the number of results that `SubmitResult` accepted for a call of `Dispatch`
-- is what the call's channel holds plus one if the call took a result. So it is at most two.
pub accepted-held :
    (s : System) (c : ℕ)
    → Reach s
    → (s.accepted c ≡ held (s.channels c) + taken (outcome_of (s.calls c).phase))
      × (s.accepted c ≤ 2)
accepted-held s c r =
    let e = (Reach-IsCounted r c).0 in
    (e, omega (arith, e, held_le (s.channels c), taken_le (outcome_of (s.calls c).phase)))
