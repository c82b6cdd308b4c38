-- ===== src/Core/Catalog/Restarted.antt =====
-- What a client reads after a restart (`Catalog::open` and `get` of crates/core/src/catalog.rs).
use lumen.Base.{
  ℕ, Text, text_ord, nat_ord, some, List, All, ok, get, IsSorted, ok_or, ◌≡◌, refl, sym, ap, ◌∙◌,
  Option, none,
}
use lumen.Core.Error.{Outcome, done, failed, panicked, document_not_found}
use lumen.Core.Json.{JsonApi}
use lumen.Core.Mapping.Schema.{id_field, source_field}
use lumen.Core.Tantivy.{TantivyApi}
use lumen.Core.Search.{source_by_id, system_fields}
use lumen.Core.Collection.Contents.{IsKeyed}
use lumen.Core.Collection.Refinement.{source_of_keyed}
use lumen.Core.Wal.{Externals, DecodesSnapshot, open_wal}
use lumen.Core.Log.{SegmentedLog}
use lumen.Core.Catalog.State.{Catalog, Entry, continue, lift}
use lumen.Core.Catalog.Store.{
  get_entry, lookup, read_index, persist, snapshot_proto, sweep_dirs, live_uuids,
}
use lumen.Core.Catalog.Open.{open_catalog}
use lumen.Core.Catalog.Writes.{get_document}
use lumen.Core.Catalog.Reopened.{
  IsSound, HasDir, AreApplied, open_catalog-swept, sweep_dirs-collections,
}
use lumen.Core.Catalog.Swept.{sweep_orphans-get}
use lumen.Proto.Command as Proto

module _ {json : JsonApi} (tantivy : TantivyApi json) (ext : Externals) where
  open tantivy use {Index}

  -- The answer of a lookup does not depend on the catalog that it leaves.
  lifted :
      (id : Text) (r : Outcome (Option (List ℕ))) (c' c : Catalog Index)
      → (continue (λ found. lift (ok_or found (document_not_found id))) r c').0
        ≡ (continue (λ found. lift (ok_or found (document_not_found id))) r c).0
  lifted id (done none) c' c = refl
  lifted id (done (some source)) c' c = refl
  lifted id (failed e) c' c = refl
  lifted id panicked c' c = refl

  get_document-like :
      (collection id : Text) (entry : Entry) (k j : Index) (c c' : Catalog Index)
      → get collection c.collections ≡ some entry
      → get collection c'.collections ≡ some entry
      → get entry.uuid c.dirs ≡ some k
      → get entry.uuid c'.dirs ≡ some j
      → source_by_id tantivy j id ≡ source_by_id tantivy k id
      → (get_document tantivy ext collection id c').0 ≡ (get_document tantivy ext collection id c).0
  unfolding get_document get_entry lookup read_index
  get_document-like collection id entry k j c c' found found' at at' same =
      rw (found, found', get_document, get_entry)
        (rw (at, at', get_document) (rw same (lifted id (source_by_id tantivy k id) c' c)))

  -- A catalog that was persisted, with a log whose entries the snapshot has, answers the lookup of
  -- every document of a collection after it is opened again as it did before, a missing one
  -- included, if every index can be opened, prost decodes the snapshot that it encoded, and the
  -- collection's committed documents have distinct ids, each with a source, under a schema with the
  -- system fields.
  pub get_document-open_catalog :
      (reopens : (i : Index) → (j : Index) × (tantivy.reopen i ≡ ok j)) (seq : ℕ)
      (c : Catalog Index) (wal : SegmentedLog) (entries : List Proto.WalEntry) (collection : Text)
      (entry : Entry) (k : Index)
      → IsSorted c.collections
      → All IsSound c.collections
      → All (HasDir tantivy ext c.dirs) c.collections
      → open_wal ext c.wal.disk ≡ ok (wal, entries)
      → AreApplied seq entries
      → DecodesSnapshot ext (snapshot_proto ext seq c)
      → get collection c.collections ≡ some entry
      → get entry.uuid c.dirs ≡ some k
      → IsKeyed (tantivy.searchable k)
      → system_fields (tantivy.schema k) ≡ some (id_field, source_field)
      → (c' : Catalog Index) × (open_catalog tantivy ext (persist ext seq c) ≡ (done tt, c'))
        × ((id : Text)
            → (get_document tantivy ext collection id c').0
              ≡ (get_document tantivy ext collection id c).0)
  get_document-open_catalog reopens seq c wal entries collection entry k sorted sound dirs opens
        applied decodes found at keyed fields =
      let (c1, ran, same, alike) =
        open_catalog-swept tantivy ext reopens seq c wal entries sorted sound dirs opens applied
          decodes in
      let c' : Catalog Index = sweep_dirs (live_uuids c1.collections) c1.seq c1.dirs c1 in
      let found1 : get collection c1.collections ≡ some entry = ap (get collection) same ∙ found in
      let (j, at1, (docs, schema)) = alike entry.uuid k (k, at, (refl, refl)) in
      (
        c',
        ran,
        λ id.
            get_document-like collection id entry k j c c' found
              (ap (get collection) (
                  sweep_dirs-collections tantivy ext reopens (live_uuids c1.collections) c1.seq
                    c1.dirs c1)
                ∙ found1)
              at (sweep_orphans-get collection entry c1.seq c1 found1 ∙ at1)
              (source_of_keyed tantivy entry.mapping j (tantivy.searchable k) keyed
                  (ap system_fields schema ∙ fields) docs id
                ∙ sym (
                    source_of_keyed tantivy entry.mapping k (tantivy.searchable k) keyed fields refl
                      id)),
      )
