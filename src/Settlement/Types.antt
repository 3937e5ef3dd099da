-- ===== src/Settlement/Types.antt =====
-- The records of internal/settlement/ledger.go. Amounts are signed counts of a millionth of a
-- credit; times are nanoseconds.
use mlx_mesh.Base.{ℕ, Bool, Option, List, String}
use mlx_mesh.Base.Int.{ℤ}

-- `CreditOrigin` is a string in the source: `other` is any string without a constant of its own.
pub data CreditOrigin : Type 0 where
  startup_grant earned_contrib admin_adjustment : CreditOrigin
  other : String → CreditOrigin

pub record CreditEntry : Type 0 where
  pub user_id : String
  pub origin : CreditOrigin
  pub amount : ℤ
  pub granted_or_earned_at : ℕ
  pub source_reference : String

pub record LedgerDebit : Type 0 where
  pub user_id : String
  pub amount : ℤ
  pub job_id : String
  pub written_at : ℕ

pub record AdminAction : Type 0 where
  pub action : String
  pub detail : String
  pub amount : ℤ
  pub performed_at : ℕ

pub record Balance : Type 0 where
  pub grant_balance : ℤ
  pub earned_balance : ℤ
  pub total : ℤ

-- The three tables of the SQLite file, each row with its time as text, in the order of `id`.
pub record CreditRow : Type 0 where
  pub user_id : String
  pub origin : CreditOrigin
  pub amount : ℤ
  pub granted_or_earned_at : String
  pub source_reference : String

pub record DebitRow : Type 0 where
  pub user_id : String
  pub amount : ℤ
  pub job_id : String
  pub written_at : String

pub record ActionRow : Type 0 where
  pub action : String
  pub detail : String
  pub amount : ℤ
  pub performed_at : String

pub record Tables : Type 0 where
  pub credit_entries : List CreditRow
  pub ledger_debits : List DebitRow
  pub admin_actions : List ActionRow

-- `db` is none for the pure in-memory ledger. `on_credit` says whether a callback is registered.
pub record Ledger : Type 0 where
  pub entries : List CreditEntry
  pub debits : List LedgerDebit
  pub admin_actions : List AdminAction
  pub db : Option Tables
  pub on_credit : Bool

-- `Format(time.RFC3339Nano)` and `time.Parse` of the standard library.
pub record TimeText : Type 0 where
  pub format : ℕ → String
  pub parse : String → ℕ
