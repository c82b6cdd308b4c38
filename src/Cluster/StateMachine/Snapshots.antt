-- ===== src/Cluster/StateMachine/Snapshots.antt =====
-- The snapshots of the state machine: `build_snapshot`, `install_snapshot` and
-- `get_current_snapshot` of crates/cluster/src/state_machine.rs. The received file is its bytes.
pub mod Transferred
use lumen.Base.{ℕ, Text, bytes, Option, none, some, List, ◌∷◌, ◌++◌, [], Result, ok, err, decimal}
use lumen.Core.Error.{Fallible, Outcome, done, failed, panicked}
use lumen.Core.Json.{JsonApi}
use lumen.Core.Log.Frame.{Bytes}
use lumen.Core.Tantivy.{TantivyApi}
use lumen.Core.Wal.{Externals}
use lumen.Core.Catalog.State.{Catalog}
use lumen.Core.Catalog.Snapshots.{Directories, Tar, Archiving}
use lumen.Core.Catalog.Snapshots as Archives
use lumen.Core.Catalog.Snapshots.Install as Install
use lumen.Proto.Openraft.{MembershipApi, LogId, StoredMembership, SnapshotMeta}
use lumen.Cluster.Storage.{engine, task_panicked, write_state_machine, Stored}
use lumen.Cluster.StateMachine.{MachineCodec, StateMachine, applied_log_id, persist_membership}

-- The state machine with the archive `current.tar` of its catalog.
pub record ArchivingMachine (M Index : Type 0) : Type 0 where
  pub machine : StateMachine M Index
  pub current : Option Bytes

unfoldable pub snapshot_id : Option LogId → Text
unfolding decimal
snapshot_id none = bytes "init"
snapshot_id (some id) =
    decimal id.leader_id.term
    ++ bytes "-"
    ++ decimal id.leader_id.node_id
    ++ bytes "-"
    ++ decimal id.index

module _ (api : MembershipApi) (codec : MachineCodec api) {json : JsonApi}
    (tantivy : TantivyApi json) (directories : Directories tantivy) (tar : Tar)
    (ext : Externals) where
  open api use {Membership}
  open tantivy use {Index}

  abbrev archiving : ArchivingMachine Membership Index → Archiving Index
  archiving s = record { catalog = s.machine.catalog; current = s.current }

  abbrev with_catalog :
      Archiving Index → ArchivingMachine Membership Index → ArchivingMachine Membership Index
  with_catalog a s = record {
    machine = record s.machine { catalog = a.catalog };
    current = a.current;
  }

  -- `build_snapshot` once the archive is there.
  unfoldable pub describe_snapshot :
      Bytes
      → ArchivingMachine Membership Index
      → Stored (SnapshotMeta Membership × Bytes) × ArchivingMachine Membership Index
  unfolding applied_log_id snapshot_id
  describe_snapshot file s = elim (applied_log_id api codec tantivy ext s.machine) [
    | err e ↦ (err e, s)
    | ok last_log_id ↦
        (let meta : SnapshotMeta Membership = record {
          last_log_id = last_log_id;
          last_membership = s.machine.last_membership;
          snapshot_id = snapshot_id last_log_id;
        } in
          (
            ok (meta, file),
            record s { machine = record s.machine { current_snapshot = some meta } },
          ))
  ]

  unfoldable pub built :
      ArchivingMachine Membership Index
      → Fallible Bytes × Archiving Index
      → Stored (SnapshotMeta Membership × Bytes) × ArchivingMachine Membership Index
  unfolding describe_snapshot
  built s (err e, a) = (err (write_state_machine (engine e)), with_catalog a s)
  built s (ok file, a) = describe_snapshot file (with_catalog a s)

  unfoldable pub build_snapshot :
      ArchivingMachine Membership Index
      → Stored (SnapshotMeta Membership × Bytes) × ArchivingMachine Membership Index
  unfolding Archives.build_snapshot built
  build_snapshot s = built s (Archives.build_snapshot tantivy directories tar ext (archiving s))

  -- `install_snapshot` once the catalog's archive is installed.
  unfoldable pub installed :
      SnapshotMeta Membership
      → ArchivingMachine Membership Index
      → Outcome (Unit {0}) × Archiving Index
      → Stored (Unit {0}) × ArchivingMachine Membership Index
  unfolding persist_membership
  installed meta s (failed e, a) = (err (write_state_machine (engine e)), with_catalog a s)
  installed meta s (panicked, a) = (err (write_state_machine task_panicked), with_catalog a s)
  installed meta s (done u, a) = (
    ok tt,
    record (with_catalog a s) {
      machine =
          record (persist_membership api codec meta.last_membership (with_catalog a s).machine) {
            last_applied = meta.last_log_id;
            last_membership = meta.last_membership;
            current_snapshot = some meta;
          };
    },
  )

  unfoldable pub install_snapshot :
      SnapshotMeta Membership
      → Bytes
      → ArchivingMachine Membership Index
      → Stored (Unit {0}) × ArchivingMachine Membership Index
  unfolding Install.install_snapshot installed
  install_snapshot meta file s =
      installed meta s (Install.install_snapshot tantivy directories ext tar file (archiving s))

  unfoldable pub get_current_snapshot :
      ArchivingMachine Membership Index → Option (SnapshotMeta Membership × Bytes)
  get_current_snapshot s = elim s.machine.current_snapshot [
    | none ↦ none
    | some meta ↦ elim s.current [ none ↦ none | some file ↦ some (meta, file) ]
  ]
