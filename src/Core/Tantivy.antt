-- ===== src/Core/Tantivy.antt =====
-- The Tantivy index of a collection, with the serde_json form of the mark in its commit payload, as
-- crates/core/src/collection.rs and search.rs use them. They are a parameter, with what Tantivy
-- documents of commits, deletions by term and searches for a term.
use lumen.Base.{
  ℕ, Text, text_cmp, text_ord, text_eq, Bool, false, Option, none, some, List, [], ◌∷◌, ◌++◌,
  length, retain, not, get, ok, ◌≡◌, ◌≤◌, ◌||◌,
}
use lumen.Core.Error.{Fallible}
use lumen.Core.Json.{JsonApi}
use lumen.Core.Mapping.Schema.{Schema, id_field, source_field}
use lumen.Core.Document.{DocValue, Document}

pub record LogMark : Type 0 where
  pub term : ℕ
  pub node : ℕ
  pub index : ℕ

abbrev pub default_mark : LogMark
default_mark = record { term = 0; node = 0; index = 0 }

-- `unwrap_or_default` on a mark.
abbrev pub or_default : Option LogMark → LogMark
or_default none = default_mark
or_default (some mark) = mark

abbrev pub same_text : Text → Option Text → Bool
same_text id none = false
same_text id (some t) = text_eq t id

module _ {json : JsonApi} where
  -- `get_first`
  unfoldable pub get_first : Text → Document json → Option (DocValue json)
  unfolding get text_cmp
  get_first name d = get name d

  -- `as_str` on the value of a field.
  abbrev pub text_of : Option (DocValue json) → Option Text
  text_of (some (DocValue.text_value t)) = some t
  text_of _ = none

  -- `as_bytes`
  abbrev pub bytes_of : Option (DocValue json) → Option (List ℕ)
  bytes_of (some (DocValue.bytes_value b)) = some b
  bytes_of _ = none

  -- The document has the `_id`.
  unfoldable pub has_id : Text → Document json → Bool
  unfolding get_first text_cmp
  has_id id d = same_text id (text_of (get_first id_field d))

  unfoldable pub having : Text → List (Document json) → List (Document json)
  unfolding retain has_id
  having id docs = retain (has_id id) docs

  unfoldable pub without : Text → List (Document json) → List (Document json)
  unfolding retain has_id
  without id docs = retain (λ d. not (has_id id d)) docs

  -- What the schema of a mapping stores of a document: the id and the source.
  unfoldable pub stored : Document json → Document json
  unfolding retain text_cmp
  stored d = retain (λ e. text_eq e.0 id_field || text_eq e.0 source_field) d

-- An index with what its writer has buffered. `searchable` are the documents of the last commit,
-- which the reader shows, and `pending` those that a commit makes searchable.
pub record TantivyApi (json : JsonApi) : Type 1 where
  pub Index : Type 0
  pub Query : Type 0
  pub Address : Type 0
  pub Score : Type 0
  -- the directory with `Index::create_in_dir`, and `Index::open_in_dir`, each with a writer
  pub create : Schema → Fallible Index
  pub reopen : Index → Fallible Index
  pub schema : Index → Schema
  pub delete_term : Text → Index → Index
  pub add_document : Document json → Index → Fallible (Unit {0}) × Index
  -- `prepare_commit`, `set_payload`, `commit` and the reload of the reader
  pub commit : Text → Index → Fallible (Unit {0}) × Index
  pub payload : Index → Option Text
  -- `QueryParser` over default fields, and `TermQuery` on `_id`
  pub parse_query : List Text → Text → Index → Option Query
  pub id_query : Text → Query
  pub count : Query → Index → Fallible ℕ
  -- `TopDocs::with_limit(limit).and_offset(offset)`
  pub top_docs : ℕ → ℕ → Query → Index → Fallible (List (Score × Address))
  pub doc : Address → Index → Fallible (Document json)
  pub mark_to_string : LogMark → Text
  pub mark_from_str : Text → Option LogMark
  pub searchable : Index → List (Document json)
  pub pending : Index → List (Document json)
  pub mark_round_trip : (m : LogMark) → mark_from_str (mark_to_string m) ≡ some m
  pub schema_create : (s : Schema) (i : Index) → create s ≡ ok i → schema i ≡ s
  pub schema_reopen : (i j : Index) → reopen i ≡ ok j → schema j ≡ schema i
  -- opening again reads the last commit, whatever was buffered
  pub searchable_reopen : (i j : Index) → reopen i ≡ ok j → searchable j ≡ searchable i
  pub pending_reopen : (i j : Index) → reopen i ≡ ok j → pending j ≡ searchable i
  pub payload_reopen : (i j : Index) → reopen i ≡ ok j → payload j ≡ payload i
  pub schema_delete : (id : Text) (i : Index) → schema (delete_term id i) ≡ schema i
  pub schema_add : (d : Document json) (i : Index) → schema (add_document d i).1 ≡ schema i
  pub schema_commit : (p : Text) (i : Index) → schema (commit p i).1 ≡ schema i
  pub payload_delete : (id : Text) (i : Index) → payload (delete_term id i) ≡ payload i
  pub payload_add : (d : Document json) (i : Index) → payload (add_document d i).1 ≡ payload i
  pub payload_commit : (p : Text) (i j : Index) → commit p i ≡ (ok tt, j) → payload j ≡ some p
  pub pending_delete : (id : Text) (i : Index) → pending (delete_term id i) ≡ without id (pending i)
  pub pending_add :
      (d : Document json) (i j : Index)
      → add_document d i ≡ (ok tt, j)
      → pending j ≡ pending i ++ d ∷ []
  pub searchable_commit :
      (p : Text) (i j : Index) → commit p i ≡ (ok tt, j) → searchable j ≡ pending i
  -- the writer keeps what was committed
  pub pending_commit : (p : Text) (i j : Index) → commit p i ≡ (ok tt, j) → pending j ≡ pending i
  pub top_limit :
      (limit offset : ℕ) (q : Query) (i : Index) (top : List (Score × Address))
      → top_docs limit offset q i ≡ ok top
      → length top ≤ limit
  pub count_id :
      (id : Text) (i : Index) → count (id_query id) i ≡ ok (length (having id (searchable i)))
  pub top_of_none :
      (id : Text) (i : Index) → having id (searchable i) ≡ [] → top_docs 1 0 (id_query id) i ≡ ok []
  pub top_of_one :
      (id : Text) (i : Index) (d : Document json)
      → having id (searchable i) ≡ d ∷ []
      → (score : Score) × (a : Address) × (top_docs 1 0 (id_query id) i ≡ ok ((score, a) ∷ []))
        × (doc a i ≡ ok (stored d))
