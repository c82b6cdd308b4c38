-- ===== src/Core/Document.antt =====
-- The Tantivy document of a JSON document, crates/core/src/document.rs. `none` is a panic of an
-- `expect`.
pub mod Built
pub mod Validated
use lumen.Base.{
  ℕ, Text, Bool, Option, none, some, List, [], ◌∷◌, ◌++◌, Result, ok, err, ok_or, ◌>>=◌, get,
  text_ord, text_cmp,
}
use lumen.Core.Error.{Error, Fallible, validation, not_an_object, value_type_mismatch}
use lumen.Core.Json.{JsonApi}
use lumen.Core.Mapping.{FieldType, text, keyword, i64, f64, date, FieldSpec, Mapping, field, as_str}
use lumen.Core.Mapping.Schema.{Schema, FieldOptions, get_field, id_field, source_field}

module _ (json : JsonApi) where
  open json use {Value, I64, F64, DateTime}

  pub data DocValue : Type 0 where
    text_value : Text → DocValue
    bytes_value : List ℕ → DocValue
    i64_value : I64 → DocValue
    f64_value : F64 → DocValue
    date_value : DateTime → DocValue

  -- `TantivyDocument`: the values added to it, in order, each with the name of its field.
  abbrev pub Document : Type 0
  Document = List (Text × DocValue)

  type_err : FieldType → Error
  unfolding as_str
  type_err ty = validation (value_type_mismatch (as_str ty))

  -- `add_value`: the value that goes into the field.
  unfoldable pub value_of : Value → FieldType → Fallible DocValue
  unfolding type_err
  value_of value text = do s ← ok_or (json.as_str value) (type_err text); ok (text_value s)
  value_of value keyword = do s ← ok_or (json.as_str value) (type_err keyword); ok (text_value s)
  value_of value i64 = do n ← ok_or (json.as_i64 value) (type_err i64); ok (i64_value n)
  value_of value f64 = do x ← ok_or (json.as_f64 value) (type_err f64); ok (f64_value x)
  value_of value date = do
    s ← ok_or (json.as_str value) (type_err date)
    t ← ok_or (json.parse_rfc3339 s) (type_err date)
    ok (date_value t)

  -- The `for` loop of `build_doc`, after the values that are in the document.
  unfoldable pub add_values :
      Schema → Mapping → List (Text × Value) → Document → Option (Fallible Document)
  add_values schema m [] doc = some (ok doc)
  add_values schema m ((name, value) ∷ object) doc = elim (get_field schema name) [
    | none ↦ add_values schema m object doc
    | some options ↦ elim (field m name) [
      | none ↦ none
      | some spec ↦ elim (value_of value spec.ty) [
        | err e ↦ some (err e)
        | ok v ↦ add_values schema m object (doc ++ (name, v) ∷ [])
      ]
    ]
  ]

  unfoldable pub build_doc : Schema → Mapping → Text → List ℕ → Value → Option (Fallible Document)
  build_doc schema m id source parsed = elim (get_field schema id_field) [
    | none ↦ none
    | some o ↦ elim (get_field schema source_field) [
      | none ↦ none
      | some o' ↦ elim (json.as_object parsed) [
        | none ↦ some (err (validation not_an_object))
        | some object ↦
            add_values schema m object
              ((id_field, text_value id) ∷ (source_field, bytes_value source) ∷ [])
      ]
    ]
  ]
