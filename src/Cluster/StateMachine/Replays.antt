-- ===== src/Cluster/StateMachine/Replays.antt =====
-- The entries that openraft hands over again after a restart
-- (`apply` and `applied_state` of crates/cluster/src/state_machine.rs).
use lumen.Base.{◌≤◌, Option, none, some, List, [], ◌∷◌, ok, err, All, ◌≡◌, ◌≢◌, refl, ap, ◌∙◌}
use lumen.Core.Error.{done}
use lumen.Core.Json.{JsonApi}
use lumen.Core.Tantivy.{TantivyApi, LogMark}
use lumen.Core.Wal.{Externals}
use lumen.Core.Catalog.State.{Catalog}
use lumen.Core.Catalog.Apply.{apply_command, checkpoint_applied}
use lumen.Core.Catalog.Replayed.{IsDocument, replay-checkpoint}
use lumen.Core.Catalog.Committed.{min_committed_mark-checkpoint}
use lumen.Proto.Openraft.{MembershipApi, LogId, EntryPayload, Entry, blank, normal, membership}
use lumen.Proto.Command as Proto
use lumen.Cluster.Storage.{Stored}
use lumen.Cluster.StateMachine.{
  MachineCodec, StateMachine, Response, to_log_id, mark_of_log_id, applied_log_id, applied_state,
  and_then, apply_payload, apply_entry, apply,
}

-- Not a command that creates or drops a collection.
unfoldable pub IsQuietOp : Option Proto.Op → Type 0
unfolding IsDocument
IsQuietOp none = Unit
IsQuietOp (some op) = IsDocument op

unfoldable pub IsQuiet : {M : Type 0} → EntryPayload M → Type 0
unfolding IsQuietOp
IsQuiet blank = Unit
IsQuiet (membership m) = Unit
IsQuiet (normal command) = IsQuietOp command.op

-- An entry at or below the mark that leaves the collections' names alone.
abbrev pub IsReplayed : {M : Type 0} → LogMark → Entry M → Type 0
IsReplayed mark e = (e.log_id.index ≤ mark.index) × IsQuiet e.payload

module _ (api : MembershipApi) (codec : MachineCodec api) {json : JsonApi}
    (tantivy : TantivyApi json) (ext : Externals) where
  open api use {Membership}
  open tantivy use {Index}

  module _ (mark : LogMark) (c c' : Catalog Index)
      (checkpoint : checkpoint_applied tantivy ext mark c ≡ (done tt, c')) where
    command-replayed :
        (mark' : LogMark) (op : Option Proto.Op)
        → mark'.index ≤ mark.index
        → IsQuietOp op
        → (apply_command tantivy ext mark' (record { op = op }) c').1 ≡ c'
    unfolding apply_command IsQuietOp
    command-replayed mark' none below q = refl
    command-replayed mark' (some op) below q =
        replay-checkpoint tantivy ext mark mark' c c' op checkpoint q below

    payload-replayed :
        (id : LogId) (p : EntryPayload Membership) (s : StateMachine Membership Index)
        → id.index ≤ mark.index
        → IsQuiet p
        → s.catalog ≡ c'
        → (apply_payload api codec tantivy ext id p s).1.catalog ≡ c'
    unfolding apply_payload IsQuiet mark_of_log_id
    payload-replayed id blank s below q h = h
    payload-replayed id (membership m) s below q h = h
    payload-replayed id (normal command) s below q h =
        ap (λ x. (apply_command tantivy ext (mark_of_log_id id) command x).1) h
        ∙ command-replayed (mark_of_log_id id) command.op below q

    and_then-catalog :
        (k : StateMachine Membership Index → Stored (List Response) × StateMachine Membership Index)
        (r : Stored Response × StateMachine Membership Index)
        → ((t : StateMachine Membership Index) → t.catalog ≡ c' → (k t).1.catalog ≡ c')
        → r.1.catalog ≡ c'
        → (and_then api codec tantivy ext k r).1.catalog ≡ c'
    and_then-catalog k (err e, s) f h = h
    and_then-catalog k (ok q, s) f h = f s h

    -- On a catalog that was checkpointed at a mark, entries at or below the mark that create and
    -- drop no collection change nothing of the catalog, however many of them are applied again.
    pub apply-replayed :
        (es : List (Entry Membership)) (s : StateMachine Membership Index)
        → All (IsReplayed mark) es
        → s.catalog ≡ c'
        → (apply api codec tantivy ext es s).1.catalog ≡ c'
    unfolding apply apply_entry
    apply-replayed [] s r h = h
    apply-replayed (e ∷ es) s r h =
        and_then-catalog (apply api codec tantivy ext es) (apply_entry api codec tantivy ext e s)
          (λ t. apply-replayed es t r.1)
          (payload-replayed e.log_id e.payload (record s { last_applied = some e.log_id }) r.0.0
            r.0.1 h)

    -- A machine whose catalog was checkpointed at a mark and has a collection reports the log id
    -- with the term, the node and the index of the mark as the last applied one, whatever it has in
    -- memory, and the membership that it has in memory.
    pub applied_state-checkpoint :
        (s : StateMachine Membership Index)
        → s.catalog ≡ c'
        → c.collections ≢ []
        → applied_state api codec tantivy ext s
          ≡ ok (
            some (record {
              leader_id = record { term = mark.term; node_id = mark.node };
              index = mark.index;
            }),
            s.last_membership,
          )
    unfolding applied_state applied_log_id to_log_id
    applied_state-checkpoint s h some_there =
        rw
          (
            h,
            min_committed_mark-checkpoint tantivy ext mark c c' checkpoint some_there,
            applied_state,
            applied_log_id,
          )
          refl
