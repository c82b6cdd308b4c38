-- ===== src/Core/Collection/Refinement.antt =====
-- The writes of a collection refine those of a map from ids to sources (`apply_upsert` and
-- `apply_delete` of crates/core/src/collection.rs).
use lumen.Base.{
  Text, text_ord, text_cmp, text_eq, ℕ, Bool, false, none, some, Option, List, [], ◌∷◌, ◌++◌,
  retain, ok, ◌≡◌, refl, sym, ap, ◌∙◌, subst, inl, inr, ◌⊎◌, if◌then◌else◌, append-nil,
}
use mathlib.Core.Path.{fun_ext}
use lumen.Core.Error.{Outcome, done, failed, panicked, failed_done, panicked_done}
use lumen.Core.Json.{JsonApi}
use lumen.Core.Mapping.{Mapping}
use lumen.Core.Mapping.Schema.{id_field, source_field}
use lumen.Core.Document.{Document}
use lumen.Core.Tantivy.{TantivyApi, LogMark, having, without}
use lumen.Core.Search.{source_by_id, system_fields}
use lumen.Core.Collection.{apply_upsert, apply_delete, commit}
use lumen.Core.Collection.Reads.{
  headed, having-without, having-append, build_doc-headed, upsert_built, upsert_pending,
  source_of_one, source_of_none, deleted, schema-commit,
}
use lumen.Core.Collection.Contents.{
  contents, IsKeyed, contents-headed, contents-none, having-without_other, has_id-headed_other,
  updated-IsKeyed, contents-updated,
}

-- The writes of a collection: an upsert of a parsed source under an id, and a delete.
pub data Write (json : JsonApi) : Type 0 where
  upsert : Text → List ℕ → json.Value → Write json
  delete : Text → Write json

-- The specification of a write, on the map from ids to sources.
unfoldable pub specified :
    {json : JsonApi} → Write json → (Text → Option (List ℕ)) → Text → Option (List ℕ)
unfolding text_cmp
specified (upsert id source parsed) sources id' =
    if text_eq id id' then some source else sources id'
specified (delete id) sources id' = if text_eq id id' then none else sources id'

unfoldable pub specified_all :
    {json : JsonApi} → List (Write json) → (Text → Option (List ℕ)) → Text → Option (List ℕ)
unfolding specified
specified_all [] sources = sources
specified_all (w ∷ ws) sources = specified_all ws (specified w sources)

module _ {json : JsonApi} (tantivy : TantivyApi json) (m : Mapping) where
  open tantivy use {Index}

  abbrev pub then_run :
      {A : Type 0}
      → (Index → Outcome (Unit {0}) × Index)
      → Outcome A × Index
      → Outcome (Unit {0}) × Index
  then_run k (done a, i) = k i
  then_run k (failed e, i) = (failed e, i)
  then_run k (panicked, i) = (panicked, i)

  -- The writes of a collection on its index, to the first that fails.
  unfoldable pub run_writes : List (Write json) → Index → Outcome (Unit {0}) × Index
  unfolding apply_upsert apply_delete
  run_writes [] i = (done tt, i)
  run_writes (upsert id source parsed ∷ ws) i =
      then_run (run_writes ws) (apply_upsert tantivy m id source parsed i)
  run_writes (delete id ∷ ws) i = then_run (run_writes ws) (apply_delete tantivy id i)

  -- What a write leaves is keyed, has the system fields, and is as it is specified.
  abbrev pub Specified : Write json → Index → Index → Type 0
  unfolding specified
  Specified w i j =
      IsKeyed (tantivy.pending j)
      × (contents (tantivy.pending j) ≡ specified w (contents (tantivy.pending i)))
      × (tantivy.schema j ≡ tantivy.schema i)

  upsert-Specified :
      (id : Text) (source : List ℕ) (parsed : json.Value) (created : Bool) (i j : Index)
      → IsKeyed (tantivy.pending i)
      → apply_upsert tantivy m id source parsed i ≡ (done created, j)
      → Specified (upsert id source parsed) i j
  unfolding having Specified
  upsert-Specified id source parsed created i j keyed h =
      let (doc, built, exists, known, added, q) =
        upsert_built tantivy m id source parsed created i j h in
      let (more, e, fields) = build_doc-headed (tantivy.schema i) m id source parsed doc built in
      let kept : (id' : Text)
          → text_eq id id' ≡ false
          → having id' (tantivy.pending j) ≡ having id' (tantivy.pending i) =
        λ id' other.
          ap (having id') (
            tantivy.pending_add doc (tantivy.delete_term id i) j added
            ∙ ap (λ docs. docs ++ doc ∷ []) (tantivy.pending_delete id i)
            ∙ ap (λ d. without id (tantivy.pending i) ++ d ∷ []) e)
          ∙ having-append id' (without id (tantivy.pending i)) (headed id source more ∷ [])
          ∙ ap (λ docs. docs ++ having id' (headed id source more ∷ []))
              (having-without_other id id' other (tantivy.pending i))
          ∙ ap (λ docs. having id' (tantivy.pending i) ++ docs)
              (rw (has_id-headed_other id id' other source more, having, retain) refl)
          ∙ append-nil (having id' (tantivy.pending i)) in
      let (more', one, q') = upsert_pending tantivy m id source parsed created i j h in
      let owned : ((having id (tantivy.pending j) ≡ []) × (some source ≡ none))
          ⊎ ((source' : List ℕ) × (more : Document json) × (having id (tantivy.pending j)
                ≡ headed id source' more ∷ [])
              × (some source ≡ some source')) =
        inr (source, more', one, refl) in
      (
        updated-IsKeyed id (some source) (tantivy.pending i) (tantivy.pending j) keyed kept owned,
        fun_ext (
            contents-updated id (some source) (tantivy.pending i) (tantivy.pending j) keyed kept
              owned),
        ap (λ r. tantivy.schema r.1) (sym added)
            ∙ tantivy.schema_add doc (tantivy.delete_term id i)
            ∙ tantivy.schema_delete id i,
      )

  delete-Specified :
      (id : Text) (existed : Bool) (i j : Index)
      → IsKeyed (tantivy.pending i)
      → apply_delete tantivy id i ≡ (done existed, j)
      → Specified (delete id) i j
  unfolding Specified
  delete-Specified id existed i j keyed h =
      let docs : tantivy.pending j ≡ without id (tantivy.pending i) =
        ap tantivy.pending (sym (deleted tantivy id existed i j h).0)
        ∙ tantivy.pending_delete id i in
      let kept : (id' : Text)
          → text_eq id id' ≡ false
          → having id' (tantivy.pending j) ≡ having id' (tantivy.pending i) =
        λ id' other. ap (having id') docs ∙ having-without_other id id' other (tantivy.pending i) in
      let owned : ((having id (tantivy.pending j) ≡ []) × (none ≡ none))
          ⊎ ((source' : List ℕ) × (more : Document json) × (having id (tantivy.pending j)
                ≡ headed id source' more ∷ [])
              × (none ≡ some source')) =
        inl (ap (having id) docs ∙ having-without id (tantivy.pending i), refl) in
      (
        updated-IsKeyed id none (tantivy.pending i) (tantivy.pending j) keyed kept owned,
        fun_ext (contents-updated id none (tantivy.pending i) (tantivy.pending j) keyed kept owned),
        ap tantivy.schema (sym (deleted tantivy id existed i j h).0) ∙ tantivy.schema_delete id i,
      )

  -- A chain of writes that goes through: its first write did, and then the rest.
  then_run_done :
      {A : Type 0} (k : Index → Outcome (Unit {0}) × Index) (r : Outcome A × Index) (j : Index)
      → then_run k r ≡ (done tt, j)
      → (a : A) × (r ≡ (done a, r.1)) × (k r.1 ≡ (done tt, j))
  then_run_done k (done a, i) j h = (a, refl, h)
  then_run_done k (failed e, i) j h = absurd (failed_done e tt (ap (λ r. r.0) h))
  then_run_done k (panicked, i) j h = absurd (panicked_done tt (ap (λ r. r.0) h))

  run_writes-IsKeyed :
      (ws : List (Write json)) (i j : Index)
      → IsKeyed (tantivy.pending i)
      → run_writes ws i ≡ (done tt, j)
      → IsKeyed (tantivy.pending j)
        × (contents (tantivy.pending j) ≡ specified_all ws (contents (tantivy.pending i)))
        × (tantivy.schema j ≡ tantivy.schema i)
  unfolding run_writes Specified contents specified_all
  run_writes-IsKeyed [] i j keyed h =
      let same : i ≡ j = ap (λ r. r.1) h in
      (
        subst (λ x. IsKeyed (tantivy.pending x)) same keyed,
        ap (λ x. contents (tantivy.pending x)) (sym same),
        ap tantivy.schema (sym same),
      )
  run_writes-IsKeyed (upsert id source parsed ∷ ws) i j keyed h =
      let (created, e, g) =
        then_run_done (run_writes ws) (apply_upsert tantivy m id source parsed i) j h in
      let (keyed', spec, schema) = upsert-Specified id source parsed created i _ keyed e in
      let (keyed'', specs, schema') = run_writes-IsKeyed ws _ j keyed' g in
      (keyed'', specs ∙ ap (specified_all ws) spec, schema' ∙ schema)
  run_writes-IsKeyed (delete id ∷ ws) i j keyed h =
      let (existed, e, g) = then_run_done (run_writes ws) (apply_delete tantivy id i) j h in
      let (keyed', spec, schema) = delete-Specified id existed i _ keyed e in
      let (keyed'', specs, schema') = run_writes-IsKeyed ws _ j keyed' g in
      (keyed'', specs ∙ ap (specified_all ws) spec, schema' ∙ schema)

  -- What a reader finds is the source that the documents have.
  pub source_of_keyed :
      (k : Index) (docs : List (Document json))
      → IsKeyed docs
      → system_fields (tantivy.schema k) ≡ some (id_field, source_field)
      → tantivy.searchable k ≡ docs
      → (id : Text) → source_by_id tantivy k id ≡ done (contents docs id)
  source_of_keyed k docs keyed fields shown id = elim (keyed id) [
    | inl h ↦
        source_of_none tantivy id k (ap (having id) shown ∙ h) fields
        ∙ ap done (sym (contents-none id docs h))
    | inr (source, more, h) ↦
        source_of_one tantivy id source more k (ap (having id) shown ∙ h) fields
        ∙ ap done (sym (contents-headed id source more docs h))
  ]

  -- Any upserts and deletes that succeed, one after the other, and then a commit: a reader finds for
  -- every id what the specification of the writes gives for it, from the map of the documents that
  -- the index had, if that had at most one document for each id and the schema the system fields.
  pub source_by_id-run_writes :
      (ws : List (Write json)) (mark : LogMark) (i j k : Index)
      → IsKeyed (tantivy.pending i)
      → system_fields (tantivy.schema i) ≡ some (id_field, source_field)
      → run_writes ws i ≡ (done tt, j)
      → commit tantivy mark j ≡ (ok tt, k)
      → (id : Text)
      → source_by_id tantivy k id ≡ done (specified_all ws (contents (tantivy.pending i)) id)
  unfolding commit
  source_by_id-run_writes ws mark i j k keyed fields h e id =
      let (keyed', specs, schema) = run_writes-IsKeyed ws i j keyed h in
      source_of_keyed k (tantivy.pending j) keyed'
        (ap system_fields (schema-commit tantivy mark j k e ∙ schema) ∙ fields)
        (tantivy.searchable_commit (tantivy.mark_to_string mark) j k e) id
      ∙ ap (λ sources. done (sources id)) specs
