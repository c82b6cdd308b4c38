-- ===== src/Examples.antt =====
-- Theorems at concrete inputs, and concrete functions for what the sources take from other crates.
mod Encodings
mod Instances
mod Logs
mod Schemas
mod Catalogs
mod Documents
mod Restarts
mod RaftLogs
mod Machines
mod Clients
mod Archives
mod Snapshots
mod Servers
mod Messages
