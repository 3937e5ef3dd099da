-- ===== src/Settlement/Tests.antt =====
-- Runs of the ledger, and the theorems about it at concrete books.
use mlx_mesh.Base.{
  ℕ, zero, suc, ◌≡◌, ◌≢◌, ◌↔◌, refl, ap, true, false, none, some, List, [], ◌∷◌, String, arith,
  eq_iff, sym, true-ne-false,
}
use mlx_mesh.Base.Int.{pos, ◌+ℤ◌, ◌-ℤ◌, ◌≤ℤ◌}
use mlx_mesh.Settlement.Types.{startup_grant, earned_contrib, CreditEntry, Ledger, Tables, TimeText}
use mlx_mesh.Settlement.Ledger.Totals.{totals_of, tally, scan_entries, scan_debits}
use mlx_mesh.Settlement.Ledger.Sums.{spent}
use mlx_mesh.Settlement.Ledger.Operations.{
  new_ledger, holds_grant, credit_locked, credit_account, claim_startup_grant_once, debit_account,
  record_admin_action, load_from_db,
}
use mlx_mesh.Settlement.Ledger.History.{Op, credit, claim, debit, step, run}
use mlx_mesh.Settlement.Ledger.Solvency.{IsSolvent, issued, run-IsSolvent, new_ledger-IsSolvent}
use mlx_mesh.Settlement.Ledger.Grants.{GrantedOnce, grant_count-nil, run-GrantedOnce}
use mlx_mesh.Settlement.Ledger.Durable.{IsMirrored, load_from_db-run}
use mlx_mesh.Settlement.Audit.{reconcile, reconcile_epsilon}
use mlx_mesh.Settlement.Audit.Consistency.{reconcile-consistent}
use mlx_mesh.Settlement.Startup.{default_decay_steps, issue_startup_grant, grant_entry}

-- A codec of times: as many letters as the time has nanoseconds.
abbrev letters : ℕ → String
letters zero = String.[]
letters (suc n) = String.◌∷◌ "t" (letters n)

abbrev count_letters : String → ℕ
count_letters String.[] = 0
count_letters (String.◌∷◌ c s) = suc (count_letters s)

abbrev letter_text : TimeText
letter_text = record { format = letters; parse = count_letters }

count_letters-letters : (n : ℕ) → count_letters (letters n) ≡ n
count_letters-letters zero = refl
count_letters-letters (suc n) = ap suc (count_letters-letters n)

abbrev alice_grant : CreditEntry
alice_grant = record {
  user_id = "alice";
  origin = startup_grant;
  amount = pos 100;
  granted_or_earned_at = 1;
  source_reference = "startup_grant:us";
}

abbrev alice_earning : CreditEntry
alice_earning = record alice_grant {
  origin = earned_contrib;
  amount = pos 30;
  source_reference = "job";
}

-- A grant, an earning, a second claim, and a debit that eats into the earnings.
abbrev history : List Op
history =
    claim true alice_grant
    ∷ credit true alice_earning
    ∷ claim true alice_grant
    ∷ debit true 2 "alice" (pos 110) "job"
    ∷ debit true 3 "alice" (pos 21) "job"
    ∷ debit true 3 "bob" (pos 1) "job"
    ∷ []

abbrev books : Ledger
books = record {
  entries = alice_grant ∷ alice_earning ∷ [];
  debits = [];
  admin_actions = [];
  db = none;
  on_credit = false;
}

program : Unit {0}
unfolding issue_startup_grant grant_entry run step credit_account credit_locked holds_grant
    claim_startup_grant_once debit_account record_admin_action new_ledger totals_of tally
    scan_entries scan_debits ◌+ℤ◌ ◌-ℤ◌
program = tt

run-history : run letter_text new_ledger history ≡ record books {
  debits = record { user_id = "alice"; amount = pos 110; job_id = "job"; written_at = 2 } ∷ [];
}
unfolding program
run-history = refl

run-IsSolvent_example : IsSolvent (run letter_text new_ledger history)
run-IsSolvent_example =
    run-IsSolvent letter_text new_ledger history (omega arith) new_ledger-IsSolvent

books-IsSolvent : IsSolvent books
unfolding program
books-IsSolvent =
    run-IsSolvent letter_text new_ledger (claim true alice_grant ∷ credit true alice_earning ∷ [])
      (omega arith) new_ledger-IsSolvent

alice_not_bob : ◌≢◌ {A = String} "alice" "bob"
alice_not_bob e = true-ne-false (sym ((eq_iff "alice" "bob").1 e))

new_ledger-GrantedOnce : GrantedOnce new_ledger
unfolding new_ledger
new_ledger-GrantedOnce u = rw (grant_count-nil u) (omega arith)

earned_no_grant : earned_contrib ≢ startup_grant
earned_no_grant = ground arith

run-GrantedOnce_example : GrantedOnce (run letter_text new_ledger history)
run-GrantedOnce_example =
    run-GrantedOnce letter_text new_ledger history
      (tt, (earned_no_grant, (tt, (tt, (tt, (tt, tt)))))) new_ledger-GrantedOnce

empty_tables : Tables
empty_tables = record { credit_entries = []; ledger_debits = []; admin_actions = [] }

abbrev opened : Ledger
opened = load_from_db letter_text empty_tables

opened-IsMirrored : IsMirrored letter_text opened
unfolding load_from_db empty_tables
opened-IsMirrored = (empty_tables, refl, (refl, refl, refl))

load_from_db-run_example :
    (t : Tables) × ((run letter_text opened history).db ≡ some t)
    × (load_from_db letter_text t ≡ record (run letter_text opened history) { on_credit = false })
load_from_db-run_example =
    load_from_db-run letter_text count_letters-letters opened history opened-IsMirrored

reconcile-consistent_example :
    ((reconcile books).consistent ≡ true)
    ↔ ((u : String) → spent u books.debits ≤ℤ issued books u +ℤ reconcile_epsilon)
reconcile-consistent_example = reconcile-consistent books

abbrev no_capacity : String → ℕ
no_capacity _ = 0

abbrev granted_ledger : Ledger
granted_ledger =
    (issue_startup_grant letter_text true 1 new_ledger "alice" "us" no_capacity
      default_decay_steps).0
