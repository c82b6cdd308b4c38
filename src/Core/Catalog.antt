-- ===== src/Core/Catalog.antt =====
-- The catalog of collections, crates/core/src/catalog.rs.
pub mod State
pub mod Names
pub mod Steps
pub mod Open
pub mod Reopened
pub mod Swept
pub mod Restarted
pub mod Store
pub mod Apply
pub mod Writes
pub mod Committed
pub mod Replayed
pub mod Upserts
pub mod Reads
pub mod Applied
pub mod Checkpoints
pub mod Snapshots
