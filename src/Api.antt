-- ===== src/Api.antt =====
-- The HTTP layer, crates/api.
pub mod Errors
pub mod Engine
pub mod Handlers
pub mod Peers
pub mod Server
