-- ===== src/Cluster/StateMachine.antt =====
-- The Raft state machine over a catalog, crates/cluster/src/state_machine.rs. Its directory has
-- `membership.pb`. The prost crate and openraft's default membership are a parameter. A command runs
-- on a blocking task: a panic there is the error of the task's join.
pub mod Batches
pub mod Membership
pub mod Replays
pub mod Snapshots
use lumen.Base.{ℕ, Text, Bool, false, Option, none, some, List, [], ◌∷◌, ok, err, map_err, map_ok}
use lumen.Core.Error.{Outcome, done, failed, panicked}
use lumen.Core.Json.{JsonApi}
use lumen.Core.Log.Frame.{Bytes}
use lumen.Core.Tantivy.{TantivyApi, LogMark}
use lumen.Core.Wal.{Externals}
use lumen.Core.Catalog.State.{Catalog}
use lumen.Core.Catalog.Store.{min_committed_mark}
use lumen.Core.Catalog.Apply.{ApplyOutcome, apply_command}
use lumen.Proto.Openraft.{
  MembershipApi, LogId, StoredMembership, SnapshotMeta, EntryPayload, Entry, blank, normal,
  membership,
}
use lumen.Proto.Conversions.{stored_membership_into, stored_membership_try_from}
use lumen.Proto.Command as Proto
use lumen.Proto.Wire as Wire
use lumen.Cluster.Storage.{
  engine, conversion, undecodable, task_panicked, read_state_machine, write_state_machine,
  apply_failed, Stored,
}

pub record Response : Type 0 where
  pub id : Text
  pub created : Bool

-- `Response::default()`
abbrev pub default_response : Response
default_response = record { id = []; created = false }

pub record MachineCodec (api : MembershipApi) : Type 0 where
  pub encode_membership : Wire.StoredMembership → Bytes
  pub decode_membership : Bytes → Option Wire.StoredMembership
  pub default_membership : api.Membership

pub record StateMachine (M Index : Type 0) : Type 0 where
  pub catalog : Catalog Index
  pub membership_file : Option Bytes
  pub last_applied : Option LogId
  pub last_membership : StoredMembership M
  pub current_snapshot : Option (SnapshotMeta M)

unfoldable pub to_log_id : LogMark → LogId
to_log_id mark = record {
  leader_id = record { term = mark.term; node_id = mark.node };
  index = mark.index;
}

-- The mark of a log id, in `apply`.
unfoldable pub mark_of_log_id : LogId → LogMark
mark_of_log_id id = record {
  term = id.leader_id.term;
  node = id.leader_id.node_id;
  index = id.index;
}

module _ (api : MembershipApi) (codec : MachineCodec api) where
  open api use {Membership}

  unfoldable pub load_membership : Option Bytes → Stored (StoredMembership Membership)
  unfolding stored_membership_try_from
  load_membership none = ok (record { log_id = none; membership = codec.default_membership })
  load_membership (some bytes) = elim (codec.decode_membership bytes) [
    | none ↦ err (read_state_machine undecodable)
    | some proto ↦
        map_err (λ e. read_state_machine (conversion e)) (stored_membership_try_from api proto)
  ]

  module _ {Index : Type 0} where
    unfoldable pub persist_membership :
        StoredMembership Membership → StateMachine Membership Index → StateMachine Membership Index
    unfolding stored_membership_into
    persist_membership m s = record s {
      membership_file = some (codec.encode_membership (stored_membership_into api m));
    }

    unfoldable pub open_machine :
        Catalog Index → Option Bytes → Stored (StateMachine Membership Index)
    unfolding load_membership
    open_machine catalog membership_file = elim (load_membership membership_file) [
      | err e ↦ err e
      | ok last_membership ↦ ok (record {
        catalog = catalog;
        membership_file = membership_file;
        last_applied = none;
        last_membership = last_membership;
        current_snapshot = none;
      })
    ]

  module _ {json : JsonApi} (tantivy : TantivyApi json) (ext : Externals) where
    open tantivy use {Index}

    unfoldable pub applied_log_id : StateMachine Membership Index → Stored (Option LogId)
    unfolding min_committed_mark to_log_id
    applied_log_id s = elim (min_committed_mark tantivy s.catalog).0 [
      | done none ↦ ok s.last_applied
      | done (some mark) ↦ ok (some (to_log_id mark))
      | failed e ↦ err (read_state_machine (engine e))
      | panicked ↦ err (read_state_machine task_panicked)
    ]

    unfoldable pub applied_state :
        StateMachine Membership Index → Stored (Option LogId × StoredMembership Membership)
    unfolding applied_log_id
    applied_state s = elim (applied_log_id s) [
      | err e ↦ err e
      | ok last ↦ ok (last, s.last_membership)
    ]

    abbrev pub response_of : LogId → Outcome ApplyOutcome → Stored Response
    response_of id (done outcome) = ok (record { id = outcome.id; created = outcome.created })
    response_of id (failed e) = err (apply_failed id (engine e))
    response_of id panicked = err (write_state_machine task_panicked)

    -- The `match` of `apply` on the payload of an entry.
    unfoldable pub apply_payload :
        LogId
        → EntryPayload Membership
        → StateMachine Membership Index
        → Stored Response × StateMachine Membership Index
    unfolding apply_command mark_of_log_id persist_membership
    apply_payload id blank s = (ok default_response, s)
    apply_payload id (membership m) s =
        let stored : StoredMembership Membership = record { log_id = some id; membership = m } in
        (ok default_response, record (persist_membership stored s) { last_membership = stored })
    apply_payload id (normal command) s =
        let r = apply_command tantivy ext (mark_of_log_id id) command s.catalog in
        (response_of id r.0, record s { catalog = r.1 })

    -- One turn of the loop: the entry is the last applied one, also if it fails.
    unfoldable pub apply_entry :
        Entry Membership
        → StateMachine Membership Index
        → Stored Response × StateMachine Membership Index
    unfolding apply_payload
    apply_entry e s = apply_payload e.log_id e.payload (record s { last_applied = some e.log_id })

    abbrev pub and_then :
        (StateMachine Membership Index → Stored (List Response) × StateMachine Membership Index)
        → Stored Response × StateMachine Membership Index
        → Stored (List Response) × StateMachine Membership Index
    and_then k (err e, s) = (err e, s)
    and_then k (ok r, s) = let rest = k s in (map_ok (λ rs. r ∷ rs) rest.0, rest.1)

    unfoldable pub apply :
        List (Entry Membership)
        → StateMachine Membership Index
        → Stored (List Response) × StateMachine Membership Index
    unfolding apply_entry
    apply [] s = (ok [], s)
    apply (e ∷ es) s = and_then (apply es) (apply_entry e s)
