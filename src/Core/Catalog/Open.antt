-- ===== src/Core/Catalog/Open.antt =====
-- Opening a catalog on its directory (`Catalog::open` of crates/core/src/catalog.rs). The input is
-- the catalog of a process that stopped: of it only the directory is read, that is the files of the
-- write-ahead log, the snapshot, the collections' directories and the quarantine.
use lumen.Base.{
  ℕ, max, Text, text_eq, text_ord, text_cmp, nat_ord, Bool, true, false, Option, none, some, List,
  [], ◌∷◌, ◌++◌, map, any, get, insert, ok_or, leb, if◌then◌else◌,
}
use lumen.Base.{ok}
use lumen.Core.Error.{
  Fallible, corrupt_snapshot, recovery, invalid_snapshot_uuid, entry_without_mapping,
  missing_data_dir,
}
use lumen.Core.Json.{JsonApi}
use lumen.Core.Mapping.{mapping_try_from}
use lumen.Core.Tantivy.{TantivyApi}
use lumen.Core.Wal.{Externals, open_wal}
use lumen.Core.Catalog.State.{Catalog, Entry, Action, pure, lift, gets, modify, ◌>>=◌, ◌>>◌}
use lumen.Core.Catalog.Store.{sweep_orphans}
use lumen.Core.Catalog.Apply.{apply_command}
use lumen.Core.Catalog.Writes.{checkpoint}
use lumen.Proto.Command as Proto

module _ (ext : Externals) {Index : Type 0} where
  unfoldable pub load_snapshot : Catalog Index → Fallible Proto.CatalogSnapshot
  load_snapshot c = elim c.snapshot [
    | none ↦ ok (record { applied_seq = 0; entries = [] })
    | some bytes ↦ ok_or (ext.decode_snapshot bytes) (recovery corrupt_snapshot)
  ]

module _ {Index : Type 0} where
  -- `collections().keys()` sorted: the keys are kept in order.
  unfoldable pub list : Catalog Index → List Text
  list c = map (λ (e : Text × Entry). e.0) c.collections

-- The name that an operation drops.
unfoldable pub dropped_name : Option Proto.Op → List Text
dropped_name (some (Proto.drop_collection drop)) = drop.collection ∷ []
dropped_name _ = []

unfoldable pub dropped_in_tail : ℕ → List Proto.WalEntry → List Text
unfolding dropped_name
dropped_in_tail applied [] = []
dropped_in_tail applied (e ∷ es) =
    let rest = dropped_in_tail applied es in
    if leb e.seq applied
    then rest
    else elim e.command [ none ↦ rest | some command ↦ dropped_name command.op ++ rest ]

unfoldable pub max_entry_seq : ℕ → List Proto.WalEntry → ℕ
max_entry_seq seq [] = seq
max_entry_seq seq (e ∷ es) = max_entry_seq (max seq e.seq) es

module _ {json : JsonApi} (tantivy : TantivyApi json) (ext : Externals) where
  open tantivy use {Index}

  -- The collection of one entry of the snapshot.
  unfoldable pub open_entry : Proto.CatalogEntry → Action (Catalog Index) (Unit {0})
  unfolding mapping_try_from get insert text_cmp
  open_entry entry = do
    uuid ← lift (ok_or (ext.parse_uuid entry.uuid) (recovery (invalid_snapshot_uuid entry.uuid)))
    message ← lift (ok_or entry.mapping (recovery (entry_without_mapping (ext.uuid_text uuid))))
    mapping ← lift (mapping_try_from message)
    found ← gets (λ c. get uuid c.dirs)
    dir ← lift (ok_or found (recovery (missing_data_dir (ext.uuid_text uuid))))
    index ← lift (tantivy.reopen dir)
    modify (λ c. record c {
      seq = max c.seq entry.created_seq;
      dirs = insert uuid index c.dirs;
      collections =
          insert entry.name
            (record { uuid = uuid; created_seq = entry.created_seq; mapping = mapping })
            c.collections;
    })

  -- The loop over the snapshot's entries passes over the names that the log's tail drops.
  unfoldable pub open_entries :
      List Text → List Proto.CatalogEntry → Action (Catalog Index) (Unit {0})
  unfolding any open_entry
  open_entries dropped [] = pure tt
  open_entries dropped (entry ∷ entries) =
      let rest = open_entries dropped entries in
      if any (λ name. text_eq name entry.name) dropped then rest else (do open_entry entry; rest)

  -- Applies the entries after the snapshot, and says whether there were any.
  unfoldable pub replay : ℕ → List Proto.WalEntry → Bool → Action (Catalog Index) Bool
  unfolding apply_command
  replay applied [] replayed = pure replayed
  replay applied (e ∷ es) replayed =
      let rest = replay applied es in
      if leb e.seq applied then rest replayed else elim e.command [
        | none ↦ rest replayed
        | some command ↦ (do
          outcome ← apply_command tantivy ext (record { term = 0; node = 0; index = e.seq }) command
          rest true)
      ]

  unfoldable pub open_catalog : Action (Catalog Index) (Unit {0})
  unfolding load_snapshot open_wal max_entry_seq dropped_in_tail open_entries replay sweep_orphans
      checkpoint
  open_catalog = do
    loaded ← gets (load_snapshot ext)
    snapshot ← lift loaded
    disk ← gets (λ c. c.wal.disk)
    opened ← lift (open_wal ext disk)
    modify (λ c. record c {
      wal = opened.0;
      seq = max_entry_seq snapshot.applied_seq opened.1;
      collections = [];
    })
    open_entries (dropped_in_tail snapshot.applied_seq opened.1) snapshot.entries
    replayed ← replay snapshot.applied_seq opened.1 false
    seq ← gets (λ c. c.seq)
    modify (sweep_orphans seq)
    if replayed then checkpoint tantivy ext else pure tt
