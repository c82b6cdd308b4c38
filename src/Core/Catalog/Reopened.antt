-- ===== src/Core/Catalog/Reopened.antt =====
-- Opening the directory of a catalog that was persisted gives its collections back
-- (`Catalog::open` of crates/core/src/catalog.rs).
use lumen.Base.{
  ==_iff, some_inj, ap, get-insert_self, get-insert_ne, arith, ℕ, max, ◌≤◌, le→leb, Bool-cases, inl,
  inr, ◌==◌, Text, text_ord, nat_ord, Bool, false, some, List, [], ◌∷◌, ◌++◌, map, All, BTreeMap,
  IsSorted, Joins, Joins-snoc, Joins-nil, get, get-insert-some, insert, insert-Above, append_assoc,
  append-nil, ok, ◌≡◌, refl, sym, ◌∙◌, any,
}
use lumen.Core.Error.{done}
use lumen.Core.Json.{JsonApi}
use lumen.Core.Mapping.{mapping_into}
use lumen.Core.Mapping.Valid.{AreValid}
use lumen.Core.Mapping.Wire.{mapping_round_trip}
use lumen.Core.Tantivy.{TantivyApi}
use lumen.Core.Wal.{Externals, DecodesSnapshot, open_wal}
use lumen.Core.Log.{SegmentedLog}
use lumen.Core.Catalog.State.{Catalog, Entry}
use lumen.Core.Catalog.Store.{snapshot_proto, persist, sweep_orphans, sweep_dirs, live_uuids}
use lumen.Core.Catalog.Open.{
  load_snapshot, dropped_in_tail, max_entry_seq, open_entry, open_entries, replay, open_catalog,
}
use lumen.Proto.Command as Proto

-- The mapping of an entry is one that `Mapping::new` accepted.
abbrev pub IsSound : Text × Entry → Type 0
IsSound e = IsSorted e.1.mapping.fields × AreValid e.1.mapping.fields

-- The entries of the log at or below a number.
abbrev pub AreApplied : ℕ → List Proto.WalEntry → Type 0
AreApplied seq = All (λ e. e.seq ≤ seq)

pub dropped_in_tail-AreApplied :
    (seq : ℕ) (es : List Proto.WalEntry) → AreApplied seq es → dropped_in_tail seq es ≡ []
unfolding dropped_in_tail
dropped_in_tail-AreApplied seq [] h = refl
dropped_in_tail-AreApplied seq (e ∷ es) h =
    rw (le→leb e.seq seq h.0, dropped_in_tail) (dropped_in_tail-AreApplied seq es h.1)

module _ {json : JsonApi} (tantivy : TantivyApi json) (ext : Externals) where
  open tantivy use {Index}

  replay-AreApplied :
      (seq : ℕ) (es : List Proto.WalEntry) (b : Bool) (c : Catalog Index)
      → AreApplied seq es
      → replay tantivy ext seq es b c ≡ (done b, c)
  unfolding replay
  replay-AreApplied seq [] b c h = refl
  replay-AreApplied seq (e ∷ es) b c h =
      rw (le→leb e.seq seq h.0, replay) (replay-AreApplied seq es b c h.1)

  -- Each collection has a directory.
  abbrev pub HasDir : BTreeMap ℕ Index → Text × Entry → Type 0
  HasDir dirs e = (i : Index) × (get e.1.uuid dirs ≡ some i)

  -- The entry of the snapshot for a collection.
  abbrev pub wire_entry : Text × Entry → Proto.CatalogEntry
  wire_entry e = record {
    name = e.0;
    uuid = ext.uuid_text e.1.uuid;
    mapping = some (mapping_into e.1.mapping);
    created_seq = e.1.created_seq;
  }

  open_entry-wire :
      (e : Text × Entry) (i j : Index) (c : Catalog Index)
      → IsSound e
      → get e.1.uuid c.dirs ≡ some i
      → tantivy.reopen i ≡ ok j
      → open_entry tantivy ext (wire_entry e) c ≡ (
        done tt,
        record c {
          seq = max c.seq e.1.created_seq;
          dirs = insert e.1.uuid j c.dirs;
          collections = insert e.0 e.1 c.collections;
        },
      )
  unfolding open_entry
  open_entry-wire e i j c sound at opens =
      rw
        (
          ext.uuid_round_trip e.1.uuid,
          open_entry,
          mapping_round_trip e.1.mapping sound.0 sound.1,
          at,
          opens,
        )
        refl

  HasDir-insert :
      (u : ℕ) (j : Index) (dirs : BTreeMap ℕ Index) (es : BTreeMap Text Entry)
      → All (HasDir dirs) es
      → All (HasDir (insert u j dirs)) es
  HasDir-insert u j dirs [] h = tt
  HasDir-insert u j dirs (e ∷ es) h =
      (get-insert-some u e.1.uuid j h.0.0 dirs h.0.1, HasDir-insert u j dirs es h.1)

  -- The index shows the documents of another one, under its schema.
  abbrev pub IsLike : Index → Index → Type 0
  IsLike k j = (tantivy.searchable j ≡ tantivy.searchable k) × (tantivy.schema j ≡ tantivy.schema k)

  -- The directory has an index like the one given.
  abbrev pub HasLike : ℕ → Index → BTreeMap ℕ Index → Type 0
  HasLike u k dirs = (j : Index) × (get u dirs ≡ some j) × IsLike k j

  -- What a directory shows is shown afterwards.
  abbrev pub AreLike : BTreeMap ℕ Index → BTreeMap ℕ Index → Type 0
  AreLike dirs dirs' = (u : ℕ) (k : Index) → HasLike u k dirs → HasLike u k dirs'

  AreLike-insert :
      (u : ℕ) (i j : Index) (dirs : BTreeMap ℕ Index)
      → get u dirs ≡ some i
      → tantivy.reopen i ≡ ok j
      → AreLike dirs (insert u j dirs)
  AreLike-insert u i j dirs at opens v k (l, has, (docs, schema)) = elim (Bool-cases (u == v)) [
    | inl e ↦
        (let same : u ≡ v = (==_iff u v).0 e in
          let i_is : i ≡ l = some_inj i l (sym at ∙ ap (λ w. get w dirs) same ∙ has) in
          (
            j,
            ap (λ w. get w (insert u j dirs)) (sym same) ∙ get-insert_self u j dirs,
            (
              tantivy.searchable_reopen i j opens ∙ ap tantivy.searchable i_is ∙ docs,
              tantivy.schema_reopen i j opens ∙ ap tantivy.schema i_is ∙ schema,
            ),
          ))
    | inr e ↦ (l, get-insert_ne u v j dirs (λ q. ground arith) ∙ has, (docs, schema))
  ]

  module _ (reopens : (i : Index) → (j : Index) × (tantivy.reopen i ≡ ok j)) where
    open_entries-wire :
        (es : BTreeMap Text Entry) (c : Catalog Index)
        → IsSorted es
        → Joins c.collections es
        → All IsSound es
        → All (HasDir c.dirs) es
        → (c' : Catalog Index) × (open_entries tantivy ext [] (map wire_entry es) c ≡ (done tt, c'))
          × (c'.collections ≡ c.collections ++ es)
          × AreLike c.dirs c'.dirs
    unfolding open_entries
    open_entries-wire [] c sorted joins sound dirs =
        (c, refl, sym (append-nil c.collections), λ u k h. h)
    open_entries-wire (e ∷ es) c sorted joins sound dirs =
        let (j, opens) = reopens dirs.0.0 in
        let c1 : Catalog Index = record c {
          seq = max c.seq e.1.created_seq;
          dirs = insert e.1.uuid j c.dirs;
          collections = c.collections ++ e ∷ [];
        } in
        let (c', ran, same, alike) =
          open_entries-wire es c1 sorted.1 (Joins-snoc e.0 e.1 c.collections es sorted.0 joins.1)
            sound.1 (HasDir-insert e.1.uuid j c.dirs es dirs.1) in
        (
          c',
          rw
              (
                open_entry-wire e dirs.0.0 j c sound.0 dirs.0.1 opens,
                open_entries,
                insert-Above e.0 e.1 c.collections joins.0,
              )
              ran,
          same ∙ append_assoc c.collections (e ∷ []) es,
          λ u k h. alike u k (AreLike-insert e.1.uuid dirs.0.0 j c.dirs dirs.0.1 opens u k h),
        )

    pub sweep_dirs-collections :
        (live : List ℕ) (high : ℕ) (dirs : BTreeMap ℕ Index) (c : Catalog Index)
        → (sweep_dirs live high dirs c).collections ≡ c.collections
    unfolding sweep_dirs
    sweep_dirs-collections live high [] c = refl
    sweep_dirs-collections live high ((u, i) ∷ dirs) c =
        elim (Bool-cases (any (λ v. v == u) live)) [
          | inl e ↦ rw (e, sweep_dirs) (sweep_dirs-collections live high dirs c)
          | inr e ↦ rw (e, sweep_dirs) (sweep_dirs-collections live high dirs _)
        ]

    pub open_catalog-swept :
        (seq : ℕ) (c : Catalog Index) (wal : SegmentedLog) (entries : List Proto.WalEntry)
        → IsSorted c.collections
        → All IsSound c.collections
        → All (HasDir c.dirs) c.collections
        → open_wal ext c.wal.disk ≡ ok (wal, entries)
        → AreApplied seq entries
        → DecodesSnapshot ext (snapshot_proto ext seq c)
        → (c' : Catalog Index) × (open_catalog tantivy ext (persist ext seq c)
            ≡ (done tt, sweep_dirs (live_uuids c'.collections) c'.seq c'.dirs c'))
          × (c'.collections ≡ c.collections)
          × AreLike c.dirs c'.dirs
    unfolding open_catalog persist snapshot_proto load_snapshot sweep_orphans DecodesSnapshot
    open_catalog-swept seq c wal entries sorted sound dirs opens applied decodes =
        let c0 : Catalog Index = record (persist ext seq c) {
          wal = wal;
          seq = max_entry_seq seq entries;
          collections = [];
        } in
        let (c1, ran, same, alike) =
          open_entries-wire c.collections c0 sorted (Joins-nil c.collections) sound dirs in
        (
          c1,
          rw
              (
                decodes,
                opens,
                open_catalog,
                dropped_in_tail-AreApplied seq entries applied,
                ran,
                replay-AreApplied seq entries false c1 applied,
              )
              refl,
          same,
          alike,
        )

    -- A catalog that was persisted, with a log whose entries the snapshot has, is opened with the
    -- collections that it had, if its mappings are valid, each collection has a directory, every
    -- index can be opened and prost decodes the snapshot that it encoded.
    pub open_catalog-persist :
        (seq : ℕ) (c : Catalog Index) (wal : SegmentedLog) (entries : List Proto.WalEntry)
        → IsSorted c.collections
        → All IsSound c.collections
        → All (HasDir c.dirs) c.collections
        → open_wal ext c.wal.disk ≡ ok (wal, entries)
        → AreApplied seq entries
        → DecodesSnapshot ext (snapshot_proto ext seq c)
        → (c' : Catalog Index) × (open_catalog tantivy ext (persist ext seq c) ≡ (done tt, c'))
          × (c'.collections ≡ c.collections)
    open_catalog-persist seq c wal entries sorted sound dirs opens applied decodes =
        let (c1, ran, same, alike) =
          open_catalog-swept seq c wal entries sorted sound dirs opens applied decodes in
        (
          sweep_dirs (live_uuids c1.collections) c1.seq c1.dirs c1,
          ran,
          sweep_dirs-collections (live_uuids c1.collections) c1.seq c1.dirs c1 ∙ same,
        )
