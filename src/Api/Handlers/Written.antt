-- ===== src/Api/Handlers/Written.antt =====
-- A document that is put and read again over HTTP on a single node (crates/api/src/handlers.rs over
-- crates/core/src/catalog.rs).
use lumen.Base.{
  ℕ, Text, text_ord, nat_ord, some, List, get, get-insert_self, Result, ok, err, err_ok,
  if◌then◌else◌, ◌≡◌, refl, ap, sym, ◌∙◌,
}
use lumen.Core.Error.{done}
use lumen.Core.Json.{JsonApi}
use lumen.Core.Tantivy.{TantivyApi}
use lumen.Core.Wal.{Externals}
use lumen.Core.Collection as Core
use lumen.Core.Collection.Reads.{source_by_id-shown}
use lumen.Core.Catalog.State.{Catalog}
use lumen.Core.Catalog.Writes.{upsert_document, checkpoint}
use lumen.Core.Catalog.Writes as Writes
use lumen.Core.Catalog.Upserts.{upsert_done}
use lumen.Core.Catalog.Checkpoints.{checkpoint-Shows}
use lumen.Core.Catalog.Reads.{found_document}
use lumen.Api.Errors.{ApiError}
use lumen.Api.Engine.{WriteOutcome}
use lumen.Api.Engine.Standalone.{standalone}
use lumen.Api.Engine.Standalone as Standalone
use lumen.Api.Engine.Agreement.{index_ok}
use lumen.Api.Handlers.{
  Reply, IndexResponse, put_document, get_document, parse_source, index_response,
}

module _ {json : JsonApi} (tantivy : TantivyApi json) (ext : Externals) where
  open tantivy use {Index}

  -- What a single node reads after a write that it accepted and a checkpoint.
  read_back :
      (uuid : ℕ) (name id : Text) (source : List ℕ) (w : WriteOutcome) (c c' c'' : Catalog Index)
      → Standalone.index tantivy ext uuid name (some id) source c ≡ (ok w, c')
      → checkpoint tantivy ext c' ≡ (done tt, c'')
      → (parsed : json.Value) × (json.from_slice source ≡ some parsed)
        × (Writes.get_document tantivy ext name id c'' ≡ (done source, c''))
        × (w.id ≡ id)
  unfolding Writes.or_new_id
  read_back uuid name id source w c c' c'' h e =
      let u =
        upsert_done tantivy ext uuid name (some id) source w.id w.created c c'
          (index_ok tantivy ext uuid name (some id) source w c c' h) in
      let found' : get name c'.collections ≡ some u.entry =
        ap (λ x. get name x.collections) u.after ∙ u.found in
      let at' : get u.entry.uuid c'.dirs ≡ some u.j =
        ap (λ x. get u.entry.uuid x.dirs) u.after ∙ get-insert_self u.entry.uuid u.j c.dirs in
      let (found'', shows) = checkpoint-Shows tantivy ext name u.entry u.j c' c'' found' at' e in
      let (k, at'', shown, pending, schema) = shows in
      (
        u.parsed,
        u.is_json,
        found_document tantivy ext name id source u.entry k c'' found'' at'' (
            source_by_id-shown tantivy u.entry.mapping id source u.parsed w.created u.i u.j k
              (ap (λ t. Core.apply_upsert tantivy u.entry.mapping t source u.parsed u.i)
                  (sym u.id_is)
                ∙ u.upserted)
              shown schema),
        u.id_is,
      )

  -- A document that is put on a single node is JSON, and once a checkpoint has gone through, a GET
  -- of it is answered with status 200, its id and the JSON that was put.
  pub get_document-put_document :
      (uuid : ℕ) (name id : Text) (body : List ℕ) (reply : Reply IndexResponse)
      (c c' c'' : Catalog Index)
      → put_document json (standalone tantivy ext) uuid name id body c ≡ (ok reply, c')
      → checkpoint tantivy ext c' ≡ (done tt, c'')
      → (source : json.Value) × (json.from_slice body ≡ some source)
        × (get_document json (standalone tantivy ext) name id c''
            ≡ (ok (record { status = 200; body = record { id = id; source = source } }), c''))
  unfolding put_document get_document standalone Standalone.get_document Standalone.run parse_source
  get_document-put_document uuid name id body reply c c' c'' h e =
      answered (Standalone.index tantivy ext uuid name (some id) body c) refl
    where
      answered :
          (r : Result ApiError WriteOutcome × Catalog Index)
          → Standalone.index tantivy ext uuid name (some id) body c ≡ r
          → (source : json.Value) × (json.from_slice body ≡ some source)
            × (get_document json (standalone tantivy ext) name id c''
                ≡ (ok (record { status = 200; body = record { id = id; source = source } }), c''))
      answered (err x, d) q =
          let bad : ◌≡◌ {A = Result ApiError (Reply IndexResponse) × Catalog Index} (err x, d)
              (ok reply, c') =
            rw (q, put_document, standalone) at h in
          absurd (err_ok x reply (ap (λ r. r.0) bad))
      answered (ok w, d) q =
          let good : ◌≡◌ {A = Result ApiError (Reply IndexResponse) × Catalog Index}
              (
                ok (record {
                  status = if w.created then 201 else 200;
                  body = index_response w.id w.created;
                }),
                d,
              )
              (ok reply, c') =
            rw (q, put_document, standalone) at h in
          let (source, is_json, stored, same) =
            read_back uuid name id body w c c' c'' (q ∙ ap (λ x. (ok w, x)) (ap (λ r. r.1) good))
              e in
          (source, is_json, rw (stored, get_document, standalone) (rw is_json refl))
