-- ===== src/Settlement/Ledger/Durable.antt =====
-- What is in memory is what is in the file: a restart loses nothing.
use mlx_mesh.Base.{
  ℕ, ◌≡◌, refl, Bool, true, false, some, List, [], ◌∷◌, map, String, inl, inr, Bool-cases,
}
use mathlib.Core.List.{map-append}
use mlx_mesh.Base.Int.{ℤ, ◌+ℤ◌, ◌-ℤ◌, ltb_ℤ}
use mlx_mesh.Settlement.Types.{CreditEntry, LedgerDebit, AdminAction, Tables, Ledger, TimeText}
use mlx_mesh.Settlement.Ledger.Totals.{totals_of}
use mlx_mesh.Settlement.Ledger.Operations.{
  credit_row, debit_row, action_row, scan_credit, scan_debit, scan_action, load_from_db,
  credit_locked, credit_account, debit_account, record_admin_action,
}
use mlx_mesh.Settlement.Ledger.Solvency.{claim_cases}
use mlx_mesh.Settlement.Ledger.History.{Op, credit, claim, debit, audit, step, run}

-- The rows of the three tables are the three slices, in order.
abbrev pub Mirrors : TimeText → Ledger → Tables → Type 0
Mirrors tx l t =
    (t.credit_entries ≡ map (credit_row tx) l.entries)
    × (t.ledger_debits ≡ map (debit_row tx) l.debits)
    × (t.admin_actions ≡ map (action_row tx) l.admin_actions)

abbrev pub IsMirrored : TimeText → Ledger → Type 0
IsMirrored tx l = (t : Tables) × (l.db ≡ some t) × Mirrors tx l t

map_inverse {ℓ κ} :
    {A : Type ℓ} {B : Type κ} (f : A → B) (g : B → A)
    → ((a : A) → g (f a) ≡ a)
    → (xs : List A) → map g (map f xs) ≡ xs
map_inverse f g h [] = refl
map_inverse f g h (x ∷ xs) = cc (h x, map_inverse f g h xs)

module _ (tx : TimeText) where
  credit_locked-IsMirrored :
      (exec : Bool) (l : Ledger) (e : CreditEntry)
      → IsMirrored tx l
      → IsMirrored tx (credit_locked tx exec l e).0
  unfolding credit_locked
  credit_locked-IsMirrored true l e (t, here, m) =
      rw (here, credit_locked)
        (_, refl, (rw (m.0, map-append (credit_row tx) l.entries (e ∷ [])), m.1, m.2))
  credit_locked-IsMirrored false l e (t, here, m) = rw (here, credit_locked) (t, here, m)

  debit_account-IsMirrored :
      (exec : Bool) (now : ℕ) (l : Ledger) (u : String) (x : ℤ) (job : String)
      → IsMirrored tx l
      → IsMirrored tx (debit_account tx exec now l u x job).0
  unfolding debit_account
  debit_account-IsMirrored exec now l u x job (t, here, m) =
      elim (Bool-cases
        (ltb_ℤ ((totals_of l u).grant +ℤ (totals_of l u).earned -ℤ (totals_of l u).debited) x)) [
          | inl short ↦ rw (short, debit_account) (t, here, m)
          | inr covered ↦ elim (Bool-cases exec) [
            | inl written ↦
                rw (covered, here, written, debit_account)
                  (_, refl, (m.0, rw (m.1, map-append (debit_row tx) l.debits (d ∷ [])), m.2))
            | inr failed ↦ rw (covered, here, failed, debit_account) (t, here, m)
          ]
        ]
    where
      d : LedgerDebit
      d = record { user_id = u; amount = x; job_id = job; written_at = now }

  record_admin_action-IsMirrored :
      (exec : Bool) (l : Ledger) (a : AdminAction)
      → IsMirrored tx l
      → IsMirrored tx (record_admin_action tx exec l a).0
  unfolding record_admin_action
  record_admin_action-IsMirrored true l a (t, here, m) =
      rw (here, record_admin_action)
        (_, refl, (m.0, m.1, rw (m.2, map-append (action_row tx) l.admin_actions (a ∷ []))))
  record_admin_action-IsMirrored false l a (t, here, m) =
      rw (here, record_admin_action) (t, here, m)

  step-IsMirrored : (l : Ledger) (o : Op) → IsMirrored tx l → IsMirrored tx (step tx l o)
  unfolding step credit_account
  step-IsMirrored l (credit exec e) m = credit_locked-IsMirrored exec l e m
  step-IsMirrored l (claim exec e) m = elim (claim_cases tx exec l e) [
    | inl (same, _) ↦ rw same (credit_locked-IsMirrored exec l e m)
    | inr same ↦ rw same m
  ]
  step-IsMirrored l (debit exec now u x job) m = debit_account-IsMirrored exec now l u x job m
  step-IsMirrored l (audit exec a) m = record_admin_action-IsMirrored exec l a m

  run-IsMirrored : (l : Ledger) (os : List Op) → IsMirrored tx l → IsMirrored tx (run tx l os)
  unfolding run
  run-IsMirrored l [] m = m
  run-IsMirrored l (o ∷ os) m = run-IsMirrored (step tx l o) os (step-IsMirrored l o m)

  module _ (codec : (time : ℕ) → tx.parse (tx.format time) ≡ time) where
    scan_credit-row : (e : CreditEntry) → scan_credit tx (credit_row tx e) ≡ e
    unfolding scan_credit credit_row
    scan_credit-row e = rw codec

    scan_debit-row : (d : LedgerDebit) → scan_debit tx (debit_row tx d) ≡ d
    unfolding scan_debit debit_row
    scan_debit-row d = rw codec

    scan_action-row : (a : AdminAction) → scan_action tx (action_row tx a) ≡ a
    unfolding scan_action action_row
    scan_action-row a = rw codec

    -- Whatever ran on a ledger that was opened from a file, and whichever writes failed: opening the
    -- file again gives the entries, the debits and the admin actions of the ledger in memory, in
    -- order, if a time that was formatted parses back.
    pub load_from_db-run :
        (l : Ledger) (os : List Op)
        → IsMirrored tx l
        → (t : Tables) × ((run tx l os).db ≡ some t)
          × (load_from_db tx t ≡ record (run tx l os) { on_credit = false })
    unfolding load_from_db
    load_from_db-run l os start =
        let (t, here, m) = run-IsMirrored l os start in
        (
          t,
          here,
          rw (m.0, m.1, m.2, ← here)
              (simp (
                map_inverse (credit_row tx) (scan_credit tx) scan_credit-row,
                map_inverse (debit_row tx) (scan_debit tx) scan_debit-row,
                map_inverse (action_row tx) (scan_action tx) scan_action-row,
              )),
        )
