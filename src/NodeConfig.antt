-- ===== src/NodeConfig.antt =====
-- internal/nodeconfig: what the owner of a node has set.
pub mod Schedule
pub mod Validate
