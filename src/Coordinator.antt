-- ===== src/Coordinator.antt =====
-- internal/coordinator: the parts of the coordinator.
pub mod Availability
pub mod Splitter
pub mod Registry
pub mod Router
pub mod Pull
pub mod Ring
pub mod Queue
pub mod Reservations
pub mod Participants
pub mod Hints
pub mod Experts
pub mod Parallel
