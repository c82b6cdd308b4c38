-- ===== src/Proto.antt =====
-- The messages on the wire and in the logs, crates/proto.
pub mod Command
pub mod Wire
pub mod Openraft
pub mod Conversions
pub mod RoundTrip
pub mod Exact
