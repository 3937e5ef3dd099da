-- ===== src/Settlement/Ledger/Totals.antt =====
-- The scans of the ledger, and how they make a balance.
use mlx_mesh.Base.{List, [], ◌∷◌, String, str_eq, if◌then◌else◌}
use mlx_mesh.Base.Int.{ℤ, pos, ◌+ℤ◌, ◌-ℤ◌, min_ℤ, max_ℤ}
use mlx_mesh.Settlement.Types.{
  CreditOrigin, startup_grant, earned_contrib, admin_adjustment, other, CreditEntry, LedgerDebit,
  Balance, Ledger,
}

-- `grantTotal, earnedTotal, totalDebited`
pub record Totals : Type 0 where
  pub grant : ℤ
  pub earned : ℤ
  pub debited : ℤ

abbrev pub no_totals : Totals
no_totals = record { grant = pos 0; earned = pos 0; debited = pos 0 }

-- The `switch e.Origin` of the loops: an unknown origin counts for nothing.
unfoldable pub tally : CreditOrigin → ℤ → Totals → Totals
tally startup_grant x t = record t { grant = t.grant +ℤ x }
tally earned_contrib x t = record t { earned = t.earned +ℤ x }
tally admin_adjustment x t = record t { earned = t.earned +ℤ x }
tally (other _) x t = t

unfoldable pub scan_entries : String → List CreditEntry → Totals → Totals
scan_entries u [] t = t
scan_entries u (e ∷ es) t =
    scan_entries u es (if str_eq e.user_id u then tally e.origin e.amount t else t)

unfoldable pub scan_debits : String → List LedgerDebit → Totals → Totals
scan_debits u [] t = t
scan_debits u (d ∷ ds) t =
    scan_debits u ds
      (if str_eq d.user_id u then record t { debited = t.debited +ℤ d.amount } else t)

-- The two loops with which `GetBalance` and `DebitAccount` begin.
unfoldable pub totals_of : Ledger → String → Totals
totals_of l u = scan_debits u l.debits (scan_entries u l.entries no_totals)

unfoldable pub balance_from_totals : ℤ → ℤ → ℤ → Balance
balance_from_totals grant_total earned_total total_debited =
    let grant_used = min_ℤ total_debited grant_total in
    let earned_used = max_ℤ (pos 0) (total_debited -ℤ grant_total) in
    let grant_bal = max_ℤ (pos 0) (grant_total -ℤ grant_used) in
    let earned_bal = max_ℤ (pos 0) (earned_total -ℤ earned_used) in
    record {
      grant_balance = grant_bal;
      earned_balance = earned_bal;
      total = grant_bal +ℤ earned_bal;
    }

unfoldable pub outstanding_grant_liability : ℤ → ℤ → ℤ
outstanding_grant_liability grant_total total_debited =
    let grant_used = min_ℤ total_debited grant_total in max_ℤ (pos 0) (grant_total -ℤ grant_used)

unfoldable pub get_balance : Ledger → String → Balance
get_balance l u = let t = totals_of l u in balance_from_totals t.grant t.earned t.debited
