-- ===== src/Federation.antt =====
-- internal/federation: pods that witness each other's signed credit history.
pub mod Event
pub mod Store
pub mod Poll
