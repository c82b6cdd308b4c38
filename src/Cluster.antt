-- ===== src/Cluster.antt =====
-- The replicated server, crates/cluster.
pub mod Storage
pub mod LogStore
pub mod StateMachine
pub mod Network
pub mod Client
