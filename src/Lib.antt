-- ===== src/Lib.antt =====
-- Lumen, a search server in Rust: documents are kept in collections, each a Tantivy index with a
-- mapping of its fields. One process runs alone on a write-ahead log, or several replicate a log
-- with openraft.
--
-- Parts, and the files that model them:
--   Core.Error, Core.Json: crates/core/src/error.rs and serde_json's values.
--   Core.Mapping: crates/core/src/mapping.rs (`Mapping::new`, `validate_document`, `to_schema`, the
--     serde and protobuf forms). Core.Document: `build_doc` of crates/core/src/document.rs.
--   Core.Log: crates/core/src/log.rs, the segmented log that both the write-ahead log and the log of
--     the cluster are written to. A directory is a map from the number in a segment file's name to
--     the file's bytes; `SegmentedLog` has the fields of the source and the directory it stands in.
--     Each operation takes the log and returns it with the result. Core.Wal: crates/core/src/wal.rs.
--   Core.Tantivy: the record of what crates/core takes from Tantivy, with the laws that Tantivy
--     documents. Core.Collection and Core.Search: crates/core/src/collection.rs and search.rs.
--   Core.Catalog: crates/core/src/catalog.rs. `Catalog` holds the collections, their directories, the
--     write-ahead log and the published snapshot; an `Action` is a function from a catalog to an
--     outcome and a catalog, so an action that fails leaves what it wrote before it failed.
--     Core.Catalog.Snapshots: the archives that a catalog builds and another one installs; an archive
--     is its catalog.pb with the files of each collection's directory. prost's encoding of catalog.pb is
--     a parameter; a file that it does not decode is the error of the source.
--   Proto: crates/proto, the messages (proto/lumen.proto, proto/raft.proto) and the conversions between
--     those and openraft's types (src/conversions.rs).
--   Cluster.LogStore: crates/cluster/src/log_store.rs, the store of the Raft log over the segmented
--     log and a meta file.
--   Cluster.StateMachine: crates/cluster/src/state_machine.rs, which applies the committed entries to
--     the catalog and keeps the last membership in a file. Cluster.Storage: the errors of both.
--   Cluster.Client: crates/cluster/src/cluster.rs, the calls of the HTTP layer on a node of a cluster.
--     A `Call` is a function from the node's catalog to a result and a catalog; what openraft answers
--     is the record `Raft`.
--   Cluster.Network: the calls between nodes, the service that answers them and the transfer of
--     snapshots of crates/cluster/src/network.rs.
--   Api.Errors: crates/api/src/error.rs, the statuses and bodies of errors. Api.Engine: the engines of
--     crates/api/src/engine.rs, a record of calls with one instance for a single node and one for a
--     node of a cluster. Api.Handlers: crates/api/src/handlers.rs over any engine. Api.Peers and
--     Api.Server: the addresses and the management calls of crates/api/src/cluster.rs, and the
--     checkpoints of crates/api/src/lib.rs.
--   Base: numbers, lists, ordered maps, byte strings and results that the parts share.
--   Examples: concrete functions for the parameters, and the theorems at concrete inputs.
--
-- A byte is a natural number. `scan_loop` runs on fuel, one more than the number of bytes of the
-- segment; a record takes at least the eight bytes of its header, so the fuel is enough. `chunk_stream`
-- runs on fuel; a chunk has at least one byte, so more fuel than bytes is enough. Sums that
-- the source computes in `u64` are bounded by hypotheses where they could pass 2^64.
--
-- Outside the model: fsync, failures of the file system other than a missing file and a failing write
-- of the meta file of the Raft log, locks and threads (each operation runs alone, as under the
-- catalog's lock), traces, the routing and extraction of
-- axum, and the start-up of a server with its listeners, timers and signals.
pub mod Base
pub mod Proto
pub mod Core
pub mod Cluster
pub mod Api
pub mod Examples
