-- ===== src/Settlement/Audit.antt =====
-- The scans of the whole ledger by user: internal/settlement/reconcile.go, and
-- `TotalOutstandingGrantLiability` and `RecentAdminActions` of ledger.go. A Go map is ranged over in
-- an order of its own; here it is the order in which the users were first seen.
pub mod Users
pub mod Consistency
pub mod Books
pub mod Liability
use mlx_mesh.Base.{
  ℕ, zero, suc, ◌-◌, ◌+◌, ◌||◌, Bool, true, false, Option, none, some, List, [], ◌∷◌, String,
  length, get_elem?, ltb, ◌==◌, if◌then◌else◌,
}
use mlx_mesh.Base.Int.{ℤ, pos, negsuc, ◌+ℤ◌, ◌-ℤ◌, ltb_ℤ}
use mlx_mesh.Base.Dict.{Dict, lookup, insert}
use mlx_mesh.Settlement.Types.{
  CreditOrigin, startup_grant, earned_contrib, admin_adjustment, other, CreditEntry, LedgerDebit,
  AdminAction, Ledger,
}
use mlx_mesh.Settlement.Ledger.Totals.{Totals, no_totals, tally, outstanding_grant_liability}

-- `reconcileState` and `userState` are the same counts. `s := ensure(id); f(s)`:
unfoldable pub update : String → (Totals → Totals) → Dict Totals → Dict Totals
update id f users = elim (lookup id users) [
  | none ↦ insert id (f no_totals) users
  | some s ↦ insert id (f s) users
]

abbrev pub debit_by : ℤ → Totals → Totals
debit_by x s = record s { debited = s.debited +ℤ x }

-- The two loops of `Reconcile` that fill `users`.
unfoldable pub collect_entries : List CreditEntry → Dict Totals → Dict Totals
collect_entries [] users = users
collect_entries (e ∷ es) users =
    collect_entries es (update e.user_id (tally e.origin e.amount) users)

unfoldable pub collect_debits : List LedgerDebit → Dict Totals → Dict Totals
collect_debits [] users = users
collect_debits (d ∷ ds) users = collect_debits ds (update d.user_id (debit_by d.amount) users)

unfoldable pub users_of : Ledger → Dict Totals
users_of l = collect_debits l.debits (collect_entries l.entries [])

pub data AnomalyKind : Type 0 where
  overdraft orphan_debit : AnomalyKind

pub record LedgerAnomaly : Type 0 where
  pub user_id : String
  pub kind : AnomalyKind
  pub credit_total : ℤ
  pub debit_total : ℤ
  pub detail : String

pub record ReconciliationReport : Type 0 where
  pub consistent : Bool
  pub user_count : ℕ
  pub total_grant_credits : ℤ
  pub total_earned_credits : ℤ
  pub total_credits : ℤ
  pub total_debits : ℤ
  pub total_outstanding : ℤ
  pub anomalies : List LedgerAnomaly

-- 1e-6 credits.
abbrev pub reconcile_epsilon : ℤ
reconcile_epsilon = pos 1

-- `report.TotalGrantCredits` and the others, summed beside the users.
unfoldable pub sum_entries : List CreditEntry → Totals → Totals
sum_entries [] t = t
sum_entries (e ∷ es) t = sum_entries es (tally e.origin e.amount t)

unfoldable pub sum_debits : List LedgerDebit → Totals → Totals
sum_debits [] t = t
sum_debits (d ∷ ds) t = sum_debits ds (debit_by d.amount t)

-- The body of the last loop of `Reconcile`.
unfoldable pub outstanding_of : Totals → ℤ
outstanding_of s =
    let balance = s.grant +ℤ s.earned -ℤ s.debited in
    if ltb_ℤ (pos 0) balance then balance else pos 0

pub is_zero : ℤ → Bool
is_zero (pos n) = n == 0
is_zero _ = false

unfoldable pub anomaly_of : String → Totals → Option LedgerAnomaly
unfolding is_zero
anomaly_of id s =
    let credits = s.grant +ℤ s.earned in
    if ltb_ℤ (credits +ℤ reconcile_epsilon) s.debited
    then some (record {
      user_id = id;
      kind = if is_zero credits then orphan_debit else overdraft;
      credit_total = credits;
      debit_total = s.debited;
      detail = "debits exceed credits - spent more than was ever issued";
    })
    else none

unfoldable pub sum_outstanding : Dict Totals → ℤ → ℤ
sum_outstanding [] acc = acc
sum_outstanding (u ∷ us) acc = sum_outstanding us (acc +ℤ outstanding_of u.1)

unfoldable pub find_anomalies : Dict Totals → List LedgerAnomaly
find_anomalies [] = []
find_anomalies (u ∷ us) =
    let rest = find_anomalies us in elim (anomaly_of u.0 u.1) [ none ↦ rest | some a ↦ a ∷ rest ]

unfoldable pub reconcile : Ledger → ReconciliationReport
reconcile l =
    let users = users_of l in
    let totals = sum_debits l.debits (sum_entries l.entries no_totals) in
    let found = find_anomalies users in
    record {
      consistent = length found == 0;
      user_count = length users;
      total_grant_credits = totals.grant;
      total_earned_credits = totals.earned;
      total_credits = totals.grant +ℤ totals.earned;
      total_debits = totals.debited;
      total_outstanding = sum_outstanding users (pos 0);
      anomalies = found;
    }

-- `TotalOutstandingGrantLiability`: the same maps, filled by grants and debits alone.
abbrev pub grant_by : ℤ → Totals → Totals
grant_by x s = record s { grant = s.grant +ℤ x }

unfoldable pub collect_grant : CreditOrigin → String → ℤ → Dict Totals → Dict Totals
collect_grant startup_grant id x users = update id (grant_by x) users
collect_grant earned_contrib id x users = users
collect_grant admin_adjustment id x users = users
collect_grant (other _) id x users = users

unfoldable pub collect_grants : List CreditEntry → Dict Totals → Dict Totals
collect_grants [] users = users
collect_grants (e ∷ es) users = collect_grants es (collect_grant e.origin e.user_id e.amount users)

unfoldable pub sum_liability : Dict Totals → ℤ → ℤ
sum_liability [] acc = acc
sum_liability (u ∷ us) acc =
    sum_liability us (acc +ℤ outstanding_grant_liability u.1.grant u.1.debited)

unfoldable pub total_outstanding_grant_liability : Ledger → ℤ
total_outstanding_grant_liability l =
    sum_liability (collect_debits l.debits (collect_grants l.entries [])) (pos 0)

-- `RecentAdminActions`: `limit` is a Go int, and `out[i] = adminActions[len-1-i]` for `i < limit`;
-- an index out of range would be a panic, `none`. The first argument counts the rounds left.
unfoldable pub recent_from : ℕ → ℕ → List AdminAction → Option (List AdminAction)
recent_from zero i actions = some []
recent_from (suc left) i actions =
    let rest = recent_from left (i + 1) actions in
    elim (get_elem? actions (length actions - 1 - i)) [
      | none ↦ none
      | some a ↦ elim rest [ none ↦ none | some r ↦ some (a ∷ r) ]
    ]

unfoldable pub recent_limit : ℤ → ℕ → ℕ
recent_limit (pos limit) n = if limit == 0 || ltb n limit then n else limit
recent_limit (negsuc _) n = n

unfoldable pub recent_admin_actions : Ledger → ℤ → Option (List AdminAction)
recent_admin_actions l limit =
    recent_from (recent_limit limit (length l.admin_actions)) 0 l.admin_actions
