-- ===== src/Core/Collection/Reads.antt =====
-- What a reader finds after writes and a commit: crates/core/src/collection.rs with the lookup of
-- crates/core/src/search.rs.
use lumen.Base.{
  ℕ, Text, text_cmp, text_ord, text_eq_iff, Bool, true, not, none, some, List, [], ◌∷◌, ◌++◌,
  retain, ok, err, Result-cases, none_some, err_ok, some_inj, Option-cases, Bool-cases, ◌≡◌, refl,
  sym, ap, ◌∙◌, inl, inr, get,
}
use lumen.Core.Error.{Fallible, done, panicked_done, failed_done, done_inj}
use lumen.Core.Json.{JsonApi}
use lumen.Core.Mapping.{Mapping}
use lumen.Core.Mapping.Schema.{Schema, to_schema, get_field, id_field, source_field}
use lumen.Core.Document.{Document, text_value, bytes_value, build_doc}
use lumen.Core.Tantivy.{TantivyApi, LogMark, having, without, has_id, stored, get_first}
use lumen.Core.Search.{source_by_id, first_source, system_fields, bytes_field}
use lumen.Core.Collection.{apply_upsert, apply_delete, answered, commit, id_exists}
use lumen.Core.Document.Built.{add_values-appends}

module _ {json : JsonApi} where
  -- A document as `build_doc` begins it.
  abbrev pub headed : Text → List ℕ → Document json → Document json
  headed id source more = (id_field, text_value id) ∷ (source_field, bytes_value source) ∷ more

  module _ (id : Text) where
    pub having-without : (docs : List (Document json)) → having id (without id docs) ≡ []
    unfolding having without retain
    having-without [] = refl
    having-without (d ∷ docs) = elim (Bool-cases (has_id id d)) [
      | inl e ↦ rw (e, without, retain) (having-without docs)
      | inr e ↦ rw (e, without, having, retain) (rw e (having-without docs))
    ]

    pub having-append :
        (docs docs' : List (Document json))
        → having id (docs ++ docs') ≡ having id docs ++ having id docs'
    unfolding having retain
    having-append [] docs' = refl
    having-append (d ∷ docs) docs' = elim (Bool-cases (has_id id d)) [
      | inl e ↦ rw (e, having, retain) (ap (λ r. d ∷ r) (having-append docs docs'))
      | inr e ↦ rw (e, having, retain) (having-append docs docs')
    ]

    pub has_id-headed :
        (source : List ℕ) (more : Document json) → has_id id (headed id source more) ≡ true
    unfolding has_id get_first get text_cmp
    has_id-headed source more = (text_eq_iff id id).1 refl

    bytes_field-headed :
        (source : List ℕ) (more : Document json)
        → bytes_field (stored (headed id source more)) source_field ≡ ok source
    unfolding bytes_field get_first get text_cmp stored retain
    bytes_field-headed source more = refl

  -- A document that is built begins with its id and its source, and its schema has both fields.
  pub build_doc-headed :
      (schema : Schema) (m : Mapping) (id : Text) (source : List ℕ) (parsed : json.Value)
      (doc : Document json)
      → build_doc json schema m id source parsed ≡ some (ok doc)
      → (more : Document json) × (doc ≡ headed id source more)
        × (system_fields schema ≡ some (id_field, source_field))
  unfolding build_doc system_fields
  build_doc-headed schema m id source parsed doc h =
      elim (Option-cases (get_field schema id_field)) [
        | inl e ↦ absurd (none_some (ok doc) (rw (e, build_doc) at h))
        | inr (o, e) ↦ elim (Option-cases (get_field schema source_field)) [
          | inl f ↦ absurd (none_some (ok doc) (rw (e, f, build_doc) at h))
          | inr (o', f) ↦ elim (Option-cases (json.as_object parsed)) [
            | inl g ↦ absurd (err_ok _ doc (some_inj _ (ok doc) (rw (e, f, g, build_doc) at h)))
            | inr (object, g) ↦
                let (more, q) =
                  add_values-appends json schema m object (headed id source []) doc
                    (rw (e, f, g, build_doc) at h) in
                (more, q, rw (e, f, system_fields) refl)
          ]
        ]
      ]

module _ {json : JsonApi} (tantivy : TantivyApi json) where
  open tantivy use {Index}

  answered_done :
      (b created : Bool) (r : Fallible (Unit {0}) × Index) (j : Index)
      → answered tantivy b r ≡ (done created, j)
      → (r ≡ (ok tt, j)) × (b ≡ created)
  answered_done b created (ok u, k) j h =
      (ap (λ x. (ok tt, x)) (ap (λ r. r.1) h), done_inj b created (ap (λ r. r.0) h))
  answered_done b created (err e, k) j h = absurd (failed_done e created (ap (λ r. r.0) h))

  -- An upsert that succeeds leaves one document with the id in what the next commit makes
  -- searchable, and answers whether the reader had none.
  module _ (m : Mapping) (id : Text) (source : List ℕ) (parsed : json.Value) (created : Bool)
      (i j : Index) where
    pub upsert_built :
        apply_upsert tantivy m id source parsed i ≡ (done created, j)
        → (doc : Document json) × (build_doc json (tantivy.schema i) m id source parsed
            ≡ some (ok doc))
          × (exists : Bool) × (id_exists tantivy id i ≡ ok exists)
          × (tantivy.add_document doc (tantivy.delete_term id i) ≡ (ok tt, j))
          × (not exists ≡ created)
    unfolding apply_upsert
    upsert_built h = elim (Option-cases (build_doc json (tantivy.schema i) m id source parsed)) [
      | inl e ↦ absurd (panicked_done created (ap (λ r. r.0) (rw (e, apply_upsert) at h)))
      | inr (built, e) ↦ elim (Result-cases built) [
        | inl (x, f) ↦ absurd (failed_done x created (ap (λ r. r.0) (rw (e, f, apply_upsert) at h)))
        | inr (doc, f) ↦ elim (Result-cases (id_exists tantivy id i)) [
          | inl (x, g) ↦
              absurd (failed_done x created (ap (λ r. r.0) (rw (e, f, g, apply_upsert) at h)))
          | inr (exists, g) ↦
              let (added, q) =
                answered_done (not exists) created _ j (rw (e, f, g, apply_upsert) at h) in
              (doc, e ∙ ap some f, exists, g, added, q)
        ]
      ]
    ]

    pub upsert_pending :
        apply_upsert tantivy m id source parsed i ≡ (done created, j)
        → (more : Document json) × (having id (tantivy.pending j) ≡ headed id source more ∷ [])
          × (system_fields (tantivy.schema j) ≡ some (id_field, source_field))
    unfolding having retain
    upsert_pending h =
        let (doc, built, exists, known, added, q) = upsert_built h in
        let (more, e, fields) = build_doc-headed (tantivy.schema i) m id source parsed doc built in
        (
          more,
          ap (having id) (
                tantivy.pending_add doc (tantivy.delete_term id i) j added
                ∙ ap (λ docs. docs ++ doc ∷ []) (tantivy.pending_delete id i))
              ∙ having-append id (without id (tantivy.pending i)) (doc ∷ [])
              ∙ ap (λ docs. docs ++ having id (doc ∷ [])) (having-without id (tantivy.pending i))
              ∙ ap (λ d. having id (d ∷ [])) e
              ∙ rw (has_id-headed id source more, having, retain) refl,
          ap system_fields (
                ap (λ r. tantivy.schema r.1) (sym added)
                ∙ tantivy.schema_add doc (tantivy.delete_term id i)
                ∙ tantivy.schema_delete id i)
              ∙ fields,
        )

  -- An upsert leaves the payload of the last commit.
  pub upsert_payload :
      (m : Mapping) (id : Text) (source : List ℕ) (parsed : json.Value) (created : Bool)
      (i j : Index)
      → apply_upsert tantivy m id source parsed i ≡ (done created, j)
      → tantivy.payload j ≡ tantivy.payload i
  upsert_payload m id source parsed created i j h =
      let (doc, built, exists, known, added, q) = upsert_built m id source parsed created i j h in
      ap (λ r. tantivy.payload r.1) (sym added)
      ∙ tantivy.payload_add doc (tantivy.delete_term id i)
      ∙ tantivy.payload_delete id i

  pub source_of_one :
      (id : Text) (source : List ℕ) (more : Document json) (k : Index)
      → having id (tantivy.searchable k) ≡ headed id source more ∷ []
      → system_fields (tantivy.schema k) ≡ some (id_field, source_field)
      → source_by_id tantivy k id ≡ done (some source)
  unfolding source_by_id first_source
  source_of_one id source more k one fields =
      let (score, a, top, doc) = tantivy.top_of_one id k (headed id source more) one in
      rw (fields, source_by_id, top, first_source, doc)
        (rw (bytes_field-headed id source more) refl)

  pub schema-commit :
      (mark : LogMark) (j k : Index)
      → commit tantivy mark j ≡ (ok tt, k)
      → tantivy.schema k ≡ tantivy.schema j
  unfolding commit
  schema-commit mark j k e =
      ap (λ r. tantivy.schema r.1) (sym e) ∙ tantivy.schema_commit (tantivy.mark_to_string mark) j

  -- An upsert's source is found under the id by a reader that shows what was pending after it,
  -- whatever was there before.
  pub source_by_id-shown :
      (m : Mapping) (id : Text) (source : List ℕ) (parsed : json.Value) (created : Bool)
      (i j k : Index)
      → apply_upsert tantivy m id source parsed i ≡ (done created, j)
      → tantivy.searchable k ≡ tantivy.pending j
      → tantivy.schema k ≡ tantivy.schema j
      → source_by_id tantivy k id ≡ done (some source)
  source_by_id-shown m id source parsed created i j k h shown schema =
      let (more, one, fields) = upsert_pending m id source parsed created i j h in
      source_of_one id source more k (ap (having id) shown ∙ one) (ap system_fields schema ∙ fields)

  -- After an upsert and a commit, the reader finds the source of the upsert under the id, whatever
  -- was there before.
  pub source_by_id-upsert :
      (m : Mapping) (id : Text) (source : List ℕ) (parsed : json.Value) (mark : LogMark)
      (created : Bool) (i j k : Index)
      → apply_upsert tantivy m id source parsed i ≡ (done created, j)
      → commit tantivy mark j ≡ (ok tt, k)
      → source_by_id tantivy k id ≡ done (some source)
  unfolding commit
  source_by_id-upsert m id source parsed mark created i j k h e =
      source_by_id-shown m id source parsed created i j k h
        (tantivy.searchable_commit (tantivy.mark_to_string mark) j k e) (schema-commit mark j k e)

  -- A delete that succeeds deletes the term, and answers whether the reader had the id.
  pub deleted :
      (id : Text) (existed : Bool) (i j : Index)
      → apply_delete tantivy id i ≡ (done existed, j)
      → (tantivy.delete_term id i ≡ j) × (id_exists tantivy id i ≡ ok existed)
  unfolding apply_delete
  deleted id existed i j h = elim (Result-cases (id_exists tantivy id i)) [
    | inl (x, e) ↦ absurd (failed_done x existed (ap (λ r. r.0) (rw (e, apply_delete) at h)))
    | inr (b, e) ↦ (
      ap (λ r. r.1) (rw (e, apply_delete) at h),
      e ∙ ap ok (done_inj b existed (ap (λ r. r.0) (rw (e, apply_delete) at h))),
    )
  ]

  pub system_fields-to_schema :
      (m : Mapping) → system_fields (to_schema m) ≡ some (id_field, source_field)
  unfolding system_fields to_schema get_field get text_cmp
  system_fields-to_schema m = refl

  pub source_of_none :
      (id : Text) (k : Index)
      → having id (tantivy.searchable k) ≡ []
      → system_fields (tantivy.schema k) ≡ some (id_field, source_field)
      → source_by_id tantivy k id ≡ done none
  unfolding source_by_id first_source
  source_of_none id k none_left fields =
      rw (fields, source_by_id, tantivy.top_of_none id k none_left, first_source) refl

  -- After a delete and a commit, the reader finds nothing under the id.
  pub source_by_id-delete :
      (m : Mapping) (id : Text) (mark : LogMark) (existed : Bool) (i j k : Index)
      → tantivy.schema i ≡ to_schema m
      → apply_delete tantivy id i ≡ (done existed, j)
      → commit tantivy mark j ≡ (ok tt, k)
      → source_by_id tantivy k id ≡ done none
  unfolding commit
  source_by_id-delete m id mark existed i j k schema h e =
      let (d, known) = deleted id existed i j h in
      source_of_none id k
        (ap (having id) (
            tantivy.searchable_commit (tantivy.mark_to_string mark) j k e
            ∙ ap tantivy.pending (sym d)
            ∙ tantivy.pending_delete id i)
          ∙ having-without id (tantivy.pending i))
        (ap system_fields (
            schema-commit mark j k e
            ∙ ap tantivy.schema (sym d)
            ∙ tantivy.schema_delete id i
            ∙ schema)
          ∙ system_fields-to_schema m)
