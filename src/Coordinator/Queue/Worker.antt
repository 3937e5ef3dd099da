-- ===== src/Coordinator/Queue/Worker.antt =====
-- A worker is done with a job by its deadline.
use mlx_mesh.Base.{
  ℕ, zero, suc, ◌+◌, ◌*◌, ◌≤◌, ◌<◌, ◌≡◌, ◌⊎◌, refl, inl, inr, true, none, some, ltb, String,
  Bool-cases, Option-cases, arith,
}
use mlx_mesh.Coordinator.Queue.{
  QueueResult, done, deadline_exceeded, shutting_down, caller_gone, Wake, timer, shutdown,
  cancelled, World, process_job, queue_retry_interval,
}

-- A reply comes from a dispatch that began by the deadline, and of a caller that was still there.
abbrev pub IsTimely : World → ℕ → QueueResult → Type 0
IsTimely w deadline (done reply) =
    (k : ℕ) × (w.dispatch k ≡ some reply) × (w.now k ≤ deadline) × (w.ctx_err k ≡ none)
IsTimely w deadline deadline_exceeded = (k : ℕ) × (deadline < w.now k)
IsTimely w deadline shutting_down = (k : ℕ) × (w.wake k ≡ shutdown)
IsTimely w deadline (caller_gone e) = (k : ℕ) × ((w.ctx_err k ≡ some e) ⊎ (w.wake k ≡ cancelled e))

Wake-cases : (x : Wake) → (x ≡ timer) ⊎ (x ≡ shutdown) ⊎ ((e : String) × (x ≡ cancelled e))
Wake-cases timer = inl refl
Wake-cases shutdown = inr (inl refl)
Wake-cases (cancelled e) = inr (inr (e, refl))

-- If each pause that the timer ends takes at least the retry interval, the loop of a job whose deadline
-- is less than n intervals away returns within n + 1 rounds: with a reply of a dispatch that began by
-- the deadline while the caller was there, or with the error of what happened, which is that the
-- deadline passed, that the coordinator shuts down, or that the caller is gone.
pub process_job_total :
    (w : World) (deadline n k : ℕ)
    → ((i : ℕ) → w.wake i ≡ timer → w.now i + queue_retry_interval ≤ w.now (suc i))
    → deadline < w.now k + n * queue_retry_interval
    → (r : QueueResult) × (process_job w deadline (suc n) k ≡ some r) × IsTimely w deadline r
unfolding process_job
process_job_total w deadline zero k pause near =
    let late : ltb deadline (w.now k) ≡ true = ground arith in
    rw (late, process_job) (deadline_exceeded, refl, (k, omega arith))
process_job_total w deadline (suc n) k pause near = elim (Bool-cases (ltb deadline (w.now k))) [
  | inl late ↦ rw (late, process_job) (deadline_exceeded, refl, (k, ground arith))
  | inr early ↦ elim (Option-cases (w.ctx_err k)) [
    | inr (e, gone) ↦ rw (early, gone, process_job) (caller_gone e, refl, (k, inl gone))
    | inl there ↦ elim (Option-cases (w.dispatch k)) [
      | inr (reply, sent) ↦
          rw (early, there, sent, process_job) (done reply, refl, (k, sent, ground arith, there))
      | inl refused ↦ elim (Wake-cases (w.wake k)) [
        | inl waited ↦
            rw (early, there, refused, waited, process_job)
              (process_job_total w deadline n (suc k) pause (omega (arith, pause k waited, near)))
        | inr (inl ended) ↦
            rw (early, there, refused, ended, process_job) (shutting_down, refl, (k, ended))
        | inr (inr (e, left)) ↦
            rw (early, there, refused, left, process_job) (caller_gone e, refl, (k, inr left))
      ]
    ]
  ]
]
