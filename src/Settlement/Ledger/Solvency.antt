-- ===== src/Settlement/Ledger/Solvency.antt =====
-- No user ever spends more than was issued to them.
use mlx_mesh.Base.{
  ℕ, ◌≡◌, ◌≢◌, ◌⊎◌, inl, inr, Bool, true, false, none, List, [], ◌∷◌, ◌++◌, String, arith, All,
  String-cases, eq_refl, ◌↔◌, any,
}
use mlx_mesh.Base.Int.{ℤ, pos, ◌+ℤ◌, ◌≤ℤ◌, int_laws}
use mlx_mesh.Settlement.Types.{CreditEntry, LedgerDebit, AdminAction, Ledger, TimeText}
use mlx_mesh.Settlement.Ledger.Sums.{
  granted, earned, spent, one_entry_nonneg, no_books, granted-append, earned-append, spent-append,
  spent-one, totals_of-sums,
}
use mlx_mesh.Settlement.Ledger.Operations.{
  new_ledger, holds_grant, credit_locked, credit_account, claim_startup_grant_once, debit_account,
  record_admin_action,
}
use mlx_mesh.Settlement.Ledger.History.{Op, credit, claim, debit, audit, step, run, IsNonNegative}

-- What a user was issued, in grants and earnings together.
abbrev pub issued : Ledger → String → ℤ
issued l u = granted u l.entries +ℤ earned u l.entries

abbrev pub IsSolvent : Ledger → Type 0
IsSolvent l = (u : String) → spent u l.debits ≤ℤ issued l u

-- `credit_locked` appends the entry or leaves the ledger alone.
pub credit_locked_cases :
    (tx : TimeText) (exec : Bool) (l : Ledger) (e : CreditEntry)
    → let (l', err) = credit_locked tx exec l e in
      ((err ≡ none) × (l'.entries ≡ l.entries ++ e ∷ []) × (l'.debits ≡ l.debits))
      ⊎ ((err ≢ none) × (l' ≡ l))
unfolding credit_locked
credit_locked_cases tx exec l e = ground arith

-- A user's issue grows by every entry that is appended, and no debit touches it.
issued-append :
    (l l' : Ledger) (e : CreditEntry) (u : String)
    → pos 0 ≤ℤ e.amount
    → l'.entries ≡ l.entries ++ e ∷ []
    → issued l u ≤ℤ issued l' u
issued-append l l' e u h same =
    rw (same, granted-append u l.entries (e ∷ []), earned-append u l.entries (e ∷ []))
      (omega (int_laws, one_entry_nonneg u e h))

credit_locked-IsSolvent :
    (tx : TimeText) (exec : Bool) (l : Ledger) (e : CreditEntry)
    → pos 0 ≤ℤ e.amount
    → IsSolvent l
    → IsSolvent (credit_locked tx exec l e).0
credit_locked-IsSolvent tx exec l e h s u = elim (credit_locked_cases tx exec l e) [
  | inl (_, grown, same) ↦
      rw same (omega (int_laws, s u, issued-append l (credit_locked tx exec l e).0 e u h grown))
  | inr (_, same) ↦ rw same (s u)
]

-- `claim_startup_grant_once` credits, or leaves the ledger alone.
pub claim_cases :
    (tx : TimeText) (exec : Bool) (l : Ledger) (e : CreditEntry)
    → let l' = (claim_startup_grant_once tx exec l e).0 in
      ((l' ≡ (credit_locked tx exec l e).0) × (any (holds_grant e.user_id) l.entries ≡ false))
      ⊎ (l' ≡ l)
unfolding claim_startup_grant_once
claim_cases tx exec l e = ground arith

-- Every branch of `debit_account`: it is refused and changes nothing, or the balance covered the
-- amount and exactly one debit is appended.
pub debit_account_cases :
    (tx : TimeText) (exec : Bool) (now : ℕ) (l : Ledger) (user : String) (x : ℤ) (job : String)
    → let (l', paid) = debit_account tx exec now l user x job in
      let d : LedgerDebit = record { user_id = user; amount = x; job_id = job; written_at = now } in
      ((paid ≡ true)
        × (spent user l.debits +ℤ x ≤ℤ issued l user)
        × (l'.debits ≡ l.debits ++ d ∷ [])
        × (l'.entries ≡ l.entries))
      ⊎ ((paid ≡ false) × (l' ≡ l))
unfolding debit_account
debit_account_cases tx exec now l user x job = rw (totals_of-sums l user) (grind int_laws)

-- The refusal, exactly: below the amount, or the file could not be written.
pub debit_account_refused :
    (tx : TimeText) (exec : Bool) (now : ℕ) (l : Ledger) (user : String) (x : ℤ) (job : String)
    → ((debit_account tx exec now l user x job).1 ≡ false)
      ↔ ((¬ (spent user l.debits +ℤ x ≤ℤ issued l user)) ⊎ ((l.db ≢ none) × (exec ≡ false)))
unfolding debit_account
debit_account_refused tx exec now l user x job = rw (totals_of-sums l user) (grind int_laws)

debit_account-IsSolvent :
    (tx : TimeText) (exec : Bool) (now : ℕ) (l : Ledger) (user : String) (x : ℤ) (job : String)
    → IsSolvent l
    → IsSolvent (debit_account tx exec now l user x job).0
debit_account-IsSolvent tx exec now l user x job s u =
    elim (debit_account_cases tx exec now l user x job) [
      | inl (_, covered, grown, same) ↦
          rw (grown, same, spent-append u l.debits _, spent-one)
            (elim (String-cases user u) [
              | inl mine ↦ rw (← mine, eq_refl) covered
              | inr not_mine ↦ rw not_mine (omega (int_laws, s u))
            ])
      | inr (_, same) ↦ rw same (s u)
    ]

pub record_admin_action_books :
    (tx : TimeText) (exec : Bool) (l : Ledger) (a : AdminAction)
    → let l' = (record_admin_action tx exec l a).0 in
      (l'.entries ≡ l.entries) × (l'.debits ≡ l.debits)
unfolding record_admin_action
record_admin_action_books tx exec l a = ground arith

pub step-IsSolvent :
    (tx : TimeText) (l : Ledger) (o : Op) → IsNonNegative o → IsSolvent l → IsSolvent (step tx l o)
unfolding step credit_account
step-IsSolvent tx l (credit exec e) h s = credit_locked-IsSolvent tx exec l e h s
step-IsSolvent tx l (claim exec e) h s = elim (claim_cases tx exec l e) [
  | inl (same, _) ↦ rw same (credit_locked-IsSolvent tx exec l e h s)
  | inr same ↦ rw same s
]
step-IsSolvent tx l (debit exec now u x job) h s = debit_account-IsSolvent tx exec now l u x job s
step-IsSolvent tx l (audit exec a) h s =
    λ u. let (e, d) = record_admin_action_books tx exec l a in rw (e, d) (s u)

-- Whatever operations run in whatever order, with any of their writes to the file failing, no user
-- has spent more than was issued to them, if nobody had before and no credited amount is negative.
pub run-IsSolvent :
    (tx : TimeText) (l : Ledger) (os : List Op)
    → All IsNonNegative os
    → IsSolvent l
    → IsSolvent (run tx l os)
unfolding run
run-IsSolvent tx l [] h s = s
run-IsSolvent tx l (o ∷ os) h s =
    run-IsSolvent tx (step tx l o) os h.1 (step-IsSolvent tx l o h.0 s)

pub new_ledger-IsSolvent : IsSolvent new_ledger
unfolding new_ledger
new_ledger-IsSolvent u = no_books u
