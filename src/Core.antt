-- ===== src/Core.antt =====
-- The storage engine, crates/core.
pub mod Error
pub mod Json
pub mod Mapping
pub mod Document
pub mod Tantivy
pub mod Search
pub mod Collection
pub mod Catalog
pub mod Log
pub mod Wal
