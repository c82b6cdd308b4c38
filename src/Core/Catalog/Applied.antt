-- ===== src/Core/Catalog/Applied.antt =====
-- What a client reads after a command was applied (`apply_index` of crates/core/src/catalog.rs).
use lumen.Base.{
  ◌≤◌, ◌<◌, Text, text_ord, nat_ord, Option, none, some, Result-cases, Result, inl, inr, ok, err,
  ok_or, get, insert, get-insert_self, lt→not-leb, ◌≡◌, refl, sym, ap, ◌∙◌, subst, arith,
}
use lumen.Core.Error.{
  Error, Outcome, done, failed, done_inj, recovery, invalid_json, document_not_found,
}
use lumen.Core.Json.{JsonApi}
use lumen.Core.Mapping.Schema.{to_schema}
use lumen.Core.Search.{source_by_id}
use lumen.Core.Tantivy.{TantivyApi, LogMark, or_default}
use lumen.Core.Collection.{apply_upsert, apply_delete, committed_mark}
use lumen.Core.Collection.Commits.{same_mark}
use lumen.Core.Collection.Reads.{source_by_id-upsert, source_by_id-delete, upsert_payload, deleted}
use lumen.Core.Catalog.State.{Catalog, Entry}
use lumen.Core.Catalog.Store.{lookup, get_entry, read_index, mark_of}
use lumen.Core.Catalog.Apply.{
  ApplyOutcome, apply_index, index_new, apply_delete_doc, delete_new, commit_collection,
}
use lumen.Core.Catalog.Writes.{get_document}
use lumen.Core.Catalog.Steps.{lift_then, index_then}
use lumen.Core.Catalog.Reads.{commit_collection_done, found_document}
use lumen.Core.Wal.{Externals}
use lumen.Proto.Command as Proto

module _ {json : JsonApi} (tantivy : TantivyApi json) (ext : Externals) where
  open tantivy use {Index}

  abbrev marked : Result Error (Option LogMark) → Outcome LogMark
  marked (err e) = failed e
  marked (ok mark) = done (or_default mark)

  mark_of-marked :
      (entry : Entry) (i : Index) (c : Catalog Index)
      → get entry.uuid c.dirs ≡ some i
      → (mark_of tantivy entry c).0 ≡ marked (committed_mark tantivy i)
  unfolding mark_of
  mark_of-marked entry i c at = elim (Result-cases (committed_mark tantivy i)) [
    | inl (e, q) ↦ rw (at, q, mark_of) refl
    | inr (m, q) ↦ rw (at, q, mark_of) refl
  ]

  apply_index-index_new :
      (mark m : LogMark) (index : Proto.IndexDocument) (entry : Entry) (c : Catalog Index)
      → get index.collection c.collections ≡ some entry
      → mark_of tantivy entry c ≡ (done m, c)
      → m.index < mark.index
      → apply_index tantivy ext mark index c ≡ index_new tantivy ext entry index c
  unfolding apply_index lookup
  apply_index-index_new mark m index entry c found q below =
      rw (found, apply_index, q) (rw (lt→not-leb m.index mark.index below) refl)

  apply_delete_doc-delete_new :
      (mark m : LogMark) (delete : Proto.DeleteDocument) (entry : Entry) (c : Catalog Index)
      → get delete.collection c.collections ≡ some entry
      → mark_of tantivy entry c ≡ (done m, c)
      → m.index < mark.index
      → apply_delete_doc tantivy ext mark delete c ≡ delete_new tantivy ext entry delete c
  unfolding apply_delete_doc lookup
  apply_delete_doc-delete_new mark m delete entry c found q below =
      rw (found, apply_delete_doc, q) (rw (lt→not-leb m.index mark.index below) refl)

  -- An index that has the payload of the index before it has its committed mark.
  mark_of-kept :
      (m m' : LogMark) (entry : Entry) (i j : Index) (c c' : Catalog Index)
      → get entry.uuid c.dirs ≡ some i
      → get entry.uuid c'.dirs ≡ some j
      → tantivy.payload j ≡ tantivy.payload i
      → mark_of tantivy entry c ≡ (done m, c)
      → mark_of tantivy entry c' ≡ (done m', c')
      → m ≡ m'
  mark_of-kept m m' entry i j c c' at at' payload q q' = done_inj m m' (
      ap (λ r. r.0) (sym q)
      ∙ mark_of-marked entry i c at
      ∙ ap marked (sym (same_mark tantivy i j payload))
      ∙ sym (mark_of-marked entry j c' at')
      ∙ ap (λ r. r.0) q')

  -- A document that an entry of the log wrote, with a number above the collection's committed mark,
  -- is what a client reads once the collection is committed at that number or above.
  pub get_document-apply_index :
      (mark m mark' : LogMark) (index : Proto.IndexDocument) (entry : Entry)
      (outcome : ApplyOutcome) (c c' c'' : Catalog Index)
      → get index.collection c.collections ≡ some entry
      → mark_of tantivy entry c ≡ (done m, c)
      → m.index < mark.index
      → apply_index tantivy ext mark index c ≡ (done outcome, c')
      → mark.index ≤ mark'.index
      → commit_collection tantivy ext index.collection mark' c' ≡ (done tt, c'')
      → get_document tantivy ext index.collection index.id c'' ≡ (done index.source, c'')
  unfolding index_new
  get_document-apply_index mark m mark' index entry outcome c c' c'' found q below h le e =
      lift_then (ok_or (json.from_slice index.source) (recovery invalid_json)) _ outcome c c'
        (sym (apply_index-index_new mark m index entry c found q below) ∙ h)
        (λ parsed is_json h1.
          index_then entry.uuid (apply_upsert tantivy entry.mapping index.id index.source parsed) _
            outcome c c' h1
            (λ created i j at upserted h2.
              let same : record c { dirs = insert entry.uuid j c.dirs } ≡ c' = ap (λ r. r.1) h2 in
              let found' : get index.collection c'.collections ≡ some entry =
                ap (λ x. get index.collection x.collections) (sym same) ∙ found in
              let at' : get entry.uuid c'.dirs ≡ some j =
                ap (λ x. get entry.uuid x.dirs) (sym same) ∙ get-insert_self entry.uuid j c.dirs in
              let payload =
                upsert_payload tantivy entry.mapping index.id index.source parsed created i j
                  upserted in
              let behind : (m' : LogMark)
                  → mark_of tantivy entry c' ≡ (done m', c')
                  → m'.index < mark'.index =
                λ m' q'.
                  subst (λ x. x.index < mark'.index)
                    (mark_of-kept m m' entry i j c c' at at' payload q q') (omega arith) in
              let (k, committed, same') =
                commit_collection_done tantivy ext index.collection mark' entry j c' c'' found' at'
                  behind e in
              found_document tantivy ext index.collection index.id index.source entry k c''
                (ap (λ x. get index.collection x.collections) (sym same') ∙ found')
                (ap (λ x. get entry.uuid x.dirs) (sym same') ∙ get-insert_self entry.uuid k c'.dirs)
                (source_by_id-upsert tantivy entry.mapping index.id index.source parsed mark'
                  created i j k upserted committed)))

  lost_document :
      (collection id : Text) (entry : Entry) (k : Index) (c : Catalog Index)
      → get collection c.collections ≡ some entry
      → get entry.uuid c.dirs ≡ some k
      → source_by_id tantivy k id ≡ done none
      → get_document tantivy ext collection id c ≡ (failed (document_not_found id), c)
  unfolding get_document get_entry lookup read_index
  lost_document collection id entry k c found at has =
      rw (found, at, get_document, get_entry) (rw has refl)

  -- A document that an entry of the log deleted, with a number above the collection's committed
  -- mark, is not found once the collection is committed at that number or above, if the
  -- collection's index has the schema of its mapping.
  pub get_document-apply_delete_doc :
      (mark m mark' : LogMark) (delete : Proto.DeleteDocument) (entry : Entry)
      (outcome : ApplyOutcome) (c c' c'' : Catalog Index)
      → get delete.collection c.collections ≡ some entry
      → mark_of tantivy entry c ≡ (done m, c)
      → m.index < mark.index
      → ((i : Index) → get entry.uuid c.dirs ≡ some i → tantivy.schema i ≡ to_schema entry.mapping)
      → apply_delete_doc tantivy ext mark delete c ≡ (done outcome, c')
      → mark.index ≤ mark'.index
      → commit_collection tantivy ext delete.collection mark' c' ≡ (done tt, c'')
      → get_document tantivy ext delete.collection delete.id c''
        ≡ (failed (document_not_found delete.id), c'')
  unfolding delete_new
  get_document-apply_delete_doc mark m mark' delete entry outcome c c' c'' found q below schema h le
        e =
      index_then entry.uuid (apply_delete tantivy delete.id) _ outcome c c'
        (sym (apply_delete_doc-delete_new mark m delete entry c found q below) ∙ h)
        (λ existed i j at ran h2.
          let same : record c { dirs = insert entry.uuid j c.dirs } ≡ c' = ap (λ r. r.1) h2 in
          let found' : get delete.collection c'.collections ≡ some entry =
            ap (λ x. get delete.collection x.collections) (sym same) ∙ found in
          let at' : get entry.uuid c'.dirs ≡ some j =
            ap (λ x. get entry.uuid x.dirs) (sym same) ∙ get-insert_self entry.uuid j c.dirs in
          let payload : tantivy.payload j ≡ tantivy.payload i =
            ap tantivy.payload (sym (deleted tantivy delete.id existed i j ran).0)
            ∙ tantivy.payload_delete delete.id i in
          let (k, committed, same') =
            commit_collection_done tantivy ext delete.collection mark' entry j c' c'' found' at'
              (λ m' q'.
                subst (λ x. x.index < mark'.index)
                  (mark_of-kept m m' entry i j c c' at at' payload q q') (omega arith))
              e in
          lost_document delete.collection delete.id entry k c''
            (ap (λ x. get delete.collection x.collections) (sym same') ∙ found')
            (ap (λ x. get entry.uuid x.dirs) (sym same') ∙ get-insert_self entry.uuid k c'.dirs)
            (source_by_id-delete tantivy entry.mapping delete.id mark' existed i j k (schema i at)
              ran committed))
