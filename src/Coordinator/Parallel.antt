-- ===== src/Coordinator/Parallel.antt =====
-- Jobs that are decomposed into sub-tasks for several nodes, whose results are verified and merged:
-- internal/coordinator/decomposer.go, parallelverifier.go, merger.go and the end of router.go.
pub mod Json
pub mod Decompose
pub mod Merge
pub mod Verify
pub mod Route
pub mod Plan
pub mod Fanout
pub mod Prompt
pub mod Replica
pub mod Trust
mod Tests
