-- ===== src/Settlement/Ledger.antt =====
-- internal/settlement/ledger.go, for the memory and the SQLite backend, which share one code path
-- under one mutex: each operation is one atomic step. The outcome of a call of `db.Exec` is the
-- argument `exec`; an INSERT that succeeds appends a row.
pub mod Totals
pub mod Operations
pub mod Sums
pub mod History
pub mod Solvency
pub mod Balances
pub mod Grants
pub mod Durable
