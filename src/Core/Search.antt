-- ===== src/Core/Search.antt =====
-- Searches and the lookup by id, crates/core/src/search.rs. A score is of Tantivy's type.
pub mod Limits
use lumen.Base.{
  ℕ, Text, text_cmp, text_ord, text_eq, Bool, true, false, not, ◌&&◌, Option, none, some, List, [],
  ◌∷◌, map, retain, ok, err, ok_or, try_map, ◌>>=◌, if◌then◌else◌, ◌==◌,
}
use lumen.Core.Error.{
  Fallible, validation, recovery, invalid_query, missing_system_field, Outcome, done, failed,
  panicked, outcome,
}
use lumen.Core.Json.{JsonApi}
use lumen.Core.Mapping.Schema.{
  Schema, FieldOptions, string_stored, full_text, raw_text, get_field, id_field, source_field,
}
use lumen.Core.Document.{Document}
use lumen.Core.Tantivy.{TantivyApi, get_first, text_of, bytes_of}

-- `entry.is_indexed()` with `tantivy::schema::FieldType::Str`.
unfoldable pub is_indexed_text : FieldOptions → Bool
is_indexed_text string_stored = true
is_indexed_text full_text = true
is_indexed_text (raw_text indexed fast) = indexed
is_indexed_text _ = false

unfoldable pub default_fields : Schema → List Text
unfolding retain is_indexed_text text_cmp
default_fields schema =
    map (λ (e : Text × FieldOptions). e.0)
      (retain (λ e. is_indexed_text e.1 && not (text_eq e.0 id_field)) schema)

-- `none` is the panic of an `expect`.
unfoldable pub system_fields : Schema → Option (Text × Text)
unfolding get_field
system_fields schema = elim (get_field schema id_field) [
  | none ↦ none
  | some o ↦ elim (get_field schema source_field) [
    | none ↦ none
    | some o' ↦ some (id_field, source_field)
  ]
]

module _ {json : JsonApi} where
  unfoldable pub text_field : Document json → Text → Fallible Text
  unfolding get_first
  text_field d name = ok_or (text_of (get_first name d)) (recovery (missing_system_field name))

  unfoldable pub bytes_field : Document json → Text → Fallible (List ℕ)
  unfolding get_first
  bytes_field d name = ok_or (bytes_of (get_first name d)) (recovery (missing_system_field name))

pub record SearchHit (Score : Type 0) : Type 0 where
  pub id : Text
  pub score : Score
  pub source : List ℕ

pub record SearchResults (Score : Type 0) : Type 0 where
  pub hits : List (SearchHit Score)
  pub total : ℕ

module _ {json : JsonApi} (tantivy : TantivyApi json) where
  open tantivy use {Index, Address, Score}

  -- The body of the `for` loop of `execute`.
  unfoldable pub hit_of : Index → Score × Address → Fallible (SearchHit Score)
  unfolding text_field bytes_field
  hit_of index (score, address) = do
    doc ← tantivy.doc address index
    id ← text_field doc id_field
    source ← bytes_field doc source_field
    ok (record { id = id; score = score; source = source })

  unfoldable pub execute : Index → Text → ℕ → ℕ → Outcome (SearchResults Score)
  unfolding default_fields system_fields try_map hit_of
  execute index text limit offset =
      elim (tantivy.parse_query (default_fields (tantivy.schema index)) text index) [
        | none ↦ failed (validation invalid_query)
        | some query ↦ elim (tantivy.count query index) [
          | err e ↦ failed e
          | ok total ↦
              if limit == 0
              then done (record { hits = []; total = total })
              else elim (system_fields (tantivy.schema index)) [
                | none ↦ panicked
                | some fields ↦ outcome (do
                  top ← tantivy.top_docs limit offset query index
                  hits ← try_map (hit_of index) top
                  ok (record { hits = hits; total = total }))
              ]
        ]
      ]

  -- What `source_by_id` returns from the first of the hits.
  unfoldable pub first_source : Index → List (Score × Address) → Fallible (Option (List ℕ))
  unfolding bytes_field
  first_source index [] = ok none
  first_source index ((score, address) ∷ top) = do
    doc ← tantivy.doc address index
    source ← bytes_field doc source_field
    ok (some source)

  unfoldable pub source_by_id : Index → Text → Outcome (Option (List ℕ))
  unfolding system_fields first_source
  source_by_id index id = elim (system_fields (tantivy.schema index)) [
    | none ↦ panicked
    | some fields ↦
        outcome (do top ← tantivy.top_docs 1 0 (tantivy.id_query id) index; first_source index top)
  ]
