-- ===== src/Core/Catalog/Reads.antt =====
-- What a client reads after its writes were committed (crates/core/src/catalog.rs).
use lumen.Base.{
  ℕ, ◌<◌, Text, text_ord, nat_ord, Bool, Option, some, List, ok, err, get, insert, Result-cases,
  inl, inr, ◌≡◌, refl, ap, sym, ◌∙◌, some_inj, get-insert_self, lt→ltb,
}
use lumen.Core.Error.{Fallible, Outcome, done, failed_done, outcome}
use lumen.Core.Json.{JsonApi}
use lumen.Core.Tantivy.{TantivyApi, LogMark, or_default}
use lumen.Core.Search.{source_by_id}
use lumen.Core.Collection.{commit, committed_mark}
use lumen.Core.Collection.Reads.{source_by_id-upsert}
use lumen.Core.Catalog.State.{Catalog, Entry}
use lumen.Core.Catalog.Store.{lookup, get_entry, read_index, mark_of, commit_entry}
use lumen.Core.Catalog.Apply.{commit_collection}
use lumen.Core.Catalog.Writes.{upsert_document, get_document}
use lumen.Core.Catalog.Steps.{with_index_done}
use lumen.Core.Wal.{Externals}
use lumen.Core.Catalog.Upserts.{upsert_done}

module _ {json : JsonApi} (tantivy : TantivyApi json) (ext : Externals) where
  open tantivy use {Index}

  commit_index_done :
      (mark : LogMark) (entry : Entry) (j : Index) (c d : Catalog Index)
      → get entry.uuid c.dirs ≡ some j
      → commit_entry tantivy mark entry c ≡ (done tt, d)
      → (k : Index) × (commit tantivy mark j ≡ (ok tt, k))
        × (record c { dirs = insert entry.uuid k c.dirs } ≡ d)
  unfolding commit_entry
  commit_index_done mark entry j c d at h =
      let (i, k, at', ran, same) = with_index_done entry.uuid _ tt c d h in
      let i_is : i ≡ j = some_inj i j (sym at' ∙ at) in
      (
        k,
        committed_pair (commit tantivy mark j) k (
            ap (λ x. (outcome (commit tantivy mark x).0, (commit tantivy mark x).1)) (sym i_is)
            ∙ ran),
        same,
      )
    where
      committed_pair :
          (r : Fallible (Unit {0}) × Index) (k : Index)
          → ◌≡◌ {A = Outcome (Unit {0}) × Index} (outcome r.0, r.1) (done tt, k)
          → r ≡ (ok tt, k)
      committed_pair (ok u, k') k h = ap (λ x. (ok tt, x)) (ap (λ x. x.1) h)
      committed_pair (err e, k') k h = absurd (failed_done e tt (ap (λ x. x.0) h))

  -- A commit of a collection whose committed mark is below the new one commits its index.
  pub commit_collection_done :
      (name : Text) (mark : LogMark) (entry : Entry) (j : Index) (c d : Catalog Index)
      → get name c.collections ≡ some entry
      → get entry.uuid c.dirs ≡ some j
      → ((m : LogMark) → mark_of tantivy entry c ≡ (done m, c) → m.index < mark.index)
      → commit_collection tantivy ext name mark c ≡ (done tt, d)
      → (k : Index) × (commit tantivy mark j ≡ (ok tt, k))
        × (record c { dirs = insert entry.uuid k c.dirs } ≡ d)
  unfolding commit_collection mark_of get_entry lookup
  commit_collection_done name mark entry j c d found at behind h =
      elim (Result-cases (committed_mark tantivy j)) [
        | inl (e, q) ↦
            absurd (
              failed_done e tt (ap (λ r. r.0) (rw (found, at, q, commit_collection, mark_of) at h)))
        | inr (m, q) ↦ commit_index_done mark entry j c d at (
            rw
              (lt→ltb (or_default m).index mark.index
                (behind (or_default m) (rw (at, q, mark_of) refl)))
              at (rw (found, at, q, commit_collection, mark_of) at h))
      ]

  pub found_document :
      (collection id : Text) (source : List ℕ) (entry : Entry) (k : Index) (c : Catalog Index)
      → get collection c.collections ≡ some entry
      → get entry.uuid c.dirs ≡ some k
      → source_by_id tantivy k id ≡ done (some source)
      → get_document tantivy ext collection id c ≡ (done source, c)
  unfolding get_document get_entry lookup read_index
  found_document collection id source entry k c found at has =
      rw (found, at, get_document, get_entry) (rw has refl)

  -- A document that was upserted is what a client reads once its collection is committed, if the
  -- collection's committed mark was below the mark of the commit.
  pub get_document-upsert :
      (uuid : ℕ) (collection : Text) (given : Option Text) (source : List ℕ) (id : Text)
      (created : Bool) (mark : LogMark) (c c' c'' : Catalog Index)
      → upsert_document tantivy ext uuid collection given source c ≡ (done (id, created), c')
      → ((entry : Entry) (m : LogMark)
          → get collection c.collections ≡ some entry
          → mark_of tantivy entry c' ≡ (done m, c')
          → m.index < mark.index)
      → commit_collection tantivy ext collection mark c' ≡ (done tt, c'')
      → get_document tantivy ext collection id c'' ≡ (done source, c'')
  get_document-upsert uuid collection given source id created mark c c' c'' h behind e =
      let u = upsert_done tantivy ext uuid collection given source id created c c' h in
      let found' : get collection c'.collections ≡ some u.entry =
        ap (λ x. get collection x.collections) u.after ∙ u.found in
      let at' : get u.entry.uuid c'.dirs ≡ some u.j =
        ap (λ x. get u.entry.uuid x.dirs) u.after ∙ get-insert_self u.entry.uuid u.j c.dirs in
      let (k, committed, same) =
        commit_collection_done collection mark u.entry u.j c' c'' found' at'
          (λ m q. behind u.entry m u.found q) e in
      found_document collection id source u.entry k c''
        (ap (λ x. get collection x.collections) (sym same) ∙ found')
        (ap (λ x. get u.entry.uuid x.dirs) (sym same) ∙ get-insert_self u.entry.uuid k c'.dirs)
        (source_by_id-upsert tantivy u.entry.mapping id source u.parsed mark created u.i u.j k
          u.upserted committed)
