-- ===== src/Core/Catalog/Store.antt =====
-- The helpers of crates/core/src/catalog.rs over the state: directories, snapshots, marks.
use lumen.Base.{
  ℕ, ◌+◌, ◌%◌, u64_mod, Text, text_ord, text_cmp, nat_ord, Option, none, some, List, [], ◌∷◌, map,
  BTreeMap, get, insert, remove, any, ok, err, ok_or, leb, ◌==◌, if◌then◌else◌,
}
use lumen.Core.Error.{Fallible, io, not_found, collection_not_found, Outcome, done, failed, outcome}
use lumen.Core.Json.{JsonApi}
use lumen.Core.Mapping.{Mapping, mapping_into}
use lumen.Core.Mapping.Schema.{to_schema}
use lumen.Core.Tantivy.{TantivyApi, LogMark, or_default}
use lumen.Core.Collection.{commit, committed_mark}
use lumen.Core.Wal.{Externals}
use lumen.Core.Catalog.State.{Catalog, Entry, Action, pure, lift, gets, modify, ◌>>=◌, ◌>>◌}
use lumen.Proto.Command as Proto

-- `values().map(|e| e.uuid)`
unfoldable pub live_uuids : BTreeMap Text Entry → List ℕ
live_uuids entries = map (λ (e : Text × Entry). e.1.uuid) entries

module _ {Index : Type 0} where
  -- `fetch_add(1) + 1` on an `AtomicU64`.
  unfoldable pub next_seq : Action (Catalog Index) ℕ
  next_seq c = let seq = (c.seq + 1) % u64_mod in (done seq, record c { seq = seq })

  unfoldable pub lookup : Text → Catalog Index → Option Entry
  unfolding get text_cmp
  lookup name c = get name c.collections

  unfoldable pub get_entry : Text → Action (Catalog Index) Entry
  unfolding lookup
  get_entry name c = lift (ok_or (lookup name c) (collection_not_found name)) c

  -- An operation that writes to the index of a collection, and one that reads from it.
  unfoldable pub with_index :
      {A : Type 0} → ℕ → (Index → Outcome A × Index) → Action (Catalog Index) A
  unfolding get insert
  with_index uuid f c = elim (get uuid c.dirs) [
    | none ↦ (failed (io not_found), c)
    | some index ↦ (let r = f index in (r.0, record c { dirs = insert uuid r.1 c.dirs }))
  ]

  unfoldable pub read_index : {A : Type 0} → ℕ → (Index → Outcome A) → Action (Catalog Index) A
  unfolding get
  read_index uuid f c = elim (get uuid c.dirs) [
    | none ↦ (failed (io not_found), c)
    | some index ↦ (f index, c)
  ]

  unfoldable pub drop_dir : ℕ → Catalog Index → Catalog Index
  unfolding remove
  drop_dir uuid c = record c { dirs = remove uuid c.dirs }

  -- Each directory that is no collection's goes to the quarantine, under its uuid and `high`.
  unfoldable pub sweep_dirs : List ℕ → ℕ → BTreeMap ℕ Index → Catalog Index → Catalog Index
  unfolding any remove
  sweep_dirs live high [] c = c
  sweep_dirs live high ((uuid, index) ∷ dirs) c = sweep_dirs live high dirs (
      if any (λ u. u == uuid) live
      then c
      else record c { dirs = remove uuid c.dirs; quarantine = (uuid, high) ∷ c.quarantine })

  unfoldable pub sweep_orphans : ℕ → Catalog Index → Catalog Index
  unfolding live_uuids sweep_dirs
  sweep_orphans high c = sweep_dirs (live_uuids c.collections) high c.dirs c

module _ (ext : Externals) {Index : Type 0} where
  unfoldable pub snapshot_proto : ℕ → Catalog Index → Proto.CatalogSnapshot
  unfolding mapping_into
  snapshot_proto applied_seq c = record {
    applied_seq = applied_seq;
    entries =
        map
          (λ (e : Text × Entry). record {
            name = e.0;
            uuid = ext.uuid_text e.1.uuid;
            mapping = some (mapping_into e.1.mapping);
            created_seq = e.1.created_seq;
          })
          c.collections;
  }

  unfoldable pub persist : ℕ → Catalog Index → Catalog Index
  unfolding snapshot_proto
  persist applied_seq c = record c {
    snapshot = some (ext.encode_snapshot (snapshot_proto applied_seq c));
  }

-- The `for` loop of `min_committed_mark`, with the minimum so far.
unfoldable pub min_mark : Option LogMark → LogMark → Option LogMark
min_mark none mark = some mark
min_mark (some current) mark = if leb current.index mark.index then some current else some mark

module _ {json : JsonApi} (tantivy : TantivyApi json) where
  open tantivy use {Index}

  -- `Collection::open` on the directory that is there, or `Collection::create`.
  unfoldable pub open_or_create : Mapping → Option Index → Fallible Index
  unfolding to_schema
  open_or_create mapping none = tantivy.create (to_schema mapping)
  open_or_create mapping (some index) = tantivy.reopen index

  unfoldable pub install_collection : Text → ℕ → Mapping → ℕ → Action (Catalog Index) (Unit {0})
  unfolding get insert text_cmp open_or_create
  install_collection name uuid mapping created_seq = do
    found ← gets (λ c. get uuid c.dirs)
    index ← lift (open_or_create mapping found)
    modify (λ c. record c {
      dirs = insert uuid index c.dirs;
      collections =
          insert name (record { uuid = uuid; created_seq = created_seq; mapping = mapping })
            c.collections;
    })

  unfoldable pub mark_of : Entry → Action (Catalog Index) LogMark
  unfolding get
  mark_of entry c = elim (get entry.uuid c.dirs) [
    | none ↦ (failed (io not_found), c)
    | some index ↦ elim (committed_mark tantivy index) [
      | err e ↦ (failed e, c)
      | ok mark ↦ (done (or_default mark), c)
    ]
  ]

  unfoldable pub min_marks :
      BTreeMap Text Entry → Option LogMark → Action (Catalog Index) (Option LogMark)
  unfolding min_mark
  min_marks [] min = pure min
  min_marks ((name, entry) ∷ rest) min = do mark ← mark_of entry; min_marks rest (min_mark min mark)

  unfoldable pub min_committed_mark : Action (Catalog Index) (Option LogMark)
  min_committed_mark c = min_marks c.collections none c

  -- `collection.commit(mark)`
  unfoldable pub commit_entry : LogMark → Entry → Action (Catalog Index) (Unit {0})
  unfolding with_index
  commit_entry mark entry =
      with_index entry.uuid
        (λ index. (outcome (commit tantivy mark index).0, (commit tantivy mark index).1))

  unfoldable pub commit_each : LogMark → BTreeMap Text Entry → Action (Catalog Index) (Unit {0})
  commit_each mark [] = pure tt
  commit_each mark ((name, entry) ∷ rest) = do commit_entry mark entry; commit_each mark rest

  unfoldable pub commit_all : Externals → LogMark → Action (Catalog Index) (Unit {0})
  unfolding persist
  commit_all ext mark = do
    entries ← gets (λ c. c.collections)
    commit_each mark entries
    modify (persist ext mark.index)
