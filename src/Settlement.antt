-- ===== src/Settlement.antt =====
-- internal/settlement: the credit ledger, its reconciliation, and the startup grants.
pub mod Types
pub mod Ledger
pub mod Audit
pub mod Startup
mod Tests
