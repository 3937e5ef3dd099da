-- ===== src/Settlement/Ledger/History.antt =====
-- Sequences of ledger operations. The mutex makes each one atomic, so what concurrent callers do is
-- such a sequence.
use mlx_mesh.Base.{ℕ, Bool, List, [], ◌∷◌, String}
use mlx_mesh.Base.Int.{ℤ, pos, ◌≤ℤ◌}
use mlx_mesh.Settlement.Types.{startup_grant, CreditEntry, AdminAction, Ledger, TimeText}
use mlx_mesh.Settlement.Ledger.Operations.{
  credit_account, claim_startup_grant_once, debit_account, record_admin_action,
}
use mlx_mesh.Base.{◌≢◌}

-- The first argument of each is the outcome of its `db.Exec`.
pub data Op : Type 0 where
  credit : Bool → CreditEntry → Op
  claim : Bool → CreditEntry → Op
  debit : Bool → ℕ → String → ℤ → String → Op
  audit : Bool → AdminAction → Op

module _ (tx : TimeText) where
  unfoldable pub step : Ledger → Op → Ledger
  step l (credit exec e) = (credit_account tx exec l e).0
  step l (claim exec e) = (claim_startup_grant_once tx exec l e).0
  step l (debit exec now u x job) = (debit_account tx exec now l u x job).0
  step l (audit exec a) = (record_admin_action tx exec l a).0

  unfoldable pub run : Ledger → List Op → Ledger
  run l [] = l
  run l (o ∷ os) = run (step l o) os

-- No caller credits a negative amount.
abbrev pub IsNonNegative : Op → Type 0
IsNonNegative (credit _ e) = pos 0 ≤ℤ e.amount
IsNonNegative (claim _ e) = pos 0 ≤ℤ e.amount
IsNonNegative (debit _ _ _ _ _) = Unit
IsNonNegative (audit _ _) = Unit

-- Startup grants come by `ClaimStartupGrantOnce` alone.
abbrev pub GrantsByClaim : Op → Type 0
GrantsByClaim (credit _ e) = e.origin ≢ startup_grant
GrantsByClaim (claim _ _) = Unit
GrantsByClaim (debit _ _ _ _ _) = Unit
GrantsByClaim (audit _ _) = Unit
