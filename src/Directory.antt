-- ===== src/Directory.antt =====
-- internal/directory: which coordinators speak for which pod.
pub mod Pinning
pub mod Pods
mod Tests
