-- ===== src/Core/Collection.antt =====
-- A collection over its Tantivy index, crates/core/src/collection.rs.
pub mod Commits
pub mod Reads
pub mod Contents
pub mod Refinement
use lumen.Base.{ℕ, Text, Bool, not, Option, none, some, List, ok, err, ok_or, ◌>>=◌, ltb}
use lumen.Core.Error.{Fallible, recovery, invalid_commit_payload, Outcome, done, failed, panicked}
use lumen.Core.Json.{JsonApi}
use lumen.Core.Mapping.{Mapping}
use lumen.Core.Document.{Document, build_doc}
use lumen.Core.Tantivy.{TantivyApi, LogMark}

module _ {json : JsonApi} (tantivy : TantivyApi json) where
  open tantivy use {Index}

  unfoldable pub id_exists : Text → Index → Fallible Bool
  id_exists id index = do n ← tantivy.count (tantivy.id_query id) index; ok (ltb 0 n)

  abbrev pub answered : Bool → Fallible (Unit {0}) × Index → Outcome Bool × Index
  answered created (ok u, index) = (done created, index)
  answered created (err e, index) = (failed e, index)

  -- Whether the id is new to the reader. The deletion stays buffered also if the document cannot be
  -- added after it.
  unfoldable pub apply_upsert : Mapping → Text → List ℕ → json.Value → Index → Outcome Bool × Index
  unfolding id_exists
  apply_upsert mapping id source parsed index =
      elim (build_doc json (tantivy.schema index) mapping id source parsed) [
        | none ↦ (panicked, index)
        | some built ↦ elim built [
          | err e ↦ (failed e, index)
          | ok doc ↦ elim (id_exists id index) [
            | err e ↦ (failed e, index)
            | ok exists ↦
                answered (not exists) (tantivy.add_document doc (tantivy.delete_term id index))
          ]
        ]
      ]

  -- Whether the id was known to the reader.
  unfoldable pub apply_delete : Text → Index → Outcome Bool × Index
  unfolding id_exists
  apply_delete id index = elim (id_exists id index) [
    | err e ↦ (failed e, index)
    | ok existed ↦ (done existed, tantivy.delete_term id index)
  ]

  unfoldable pub commit : LogMark → Index → Fallible (Unit {0}) × Index
  commit mark index = tantivy.commit (tantivy.mark_to_string mark) index

  unfoldable pub committed_mark : Index → Fallible (Option LogMark)
  committed_mark index = elim (tantivy.payload index) [
    | none ↦ ok none
    | some p ↦ (do
      mark ← ok_or (tantivy.mark_from_str p) (recovery invalid_commit_payload)
      ok (some mark))
  ]
