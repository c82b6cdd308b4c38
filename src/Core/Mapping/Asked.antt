-- ===== src/Core/Mapping/Asked.antt =====
-- The fields of a mapping's Tantivy schema (`to_schema` of crates/core/src/mapping.rs) against what the
-- mapping asks for.
use lumen.Base.{text_ord, Bool, true, false, ◌||◌, Option, none, some, ◌≡◌}
use lumen.Core.Mapping.{FieldType, text, keyword, i64, f64, date, FieldSpec, Mapping}
use lumen.Core.Mapping.Schema.{
  FieldOptions, string_stored, bytes_stored, full_text, raw_text, i64_options, f64_options,
  date_options,
}

-- What Tantivy is told of a field: the type of its values, and whether it is indexed and fast.
abbrev pub value_type : FieldOptions → Option FieldType
value_type full_text = some text
value_type (raw_text indexed fast) = some keyword
value_type (i64_options indexed fast) = some i64
value_type (f64_options indexed fast) = some f64
value_type (date_options indexed fast) = some date
value_type _ = none

abbrev pub indexes : FieldOptions → Bool
indexes string_stored = true
indexes bytes_stored = false
indexes full_text = true
indexes (raw_text indexed fast) = indexed
indexes (i64_options indexed fast) = indexed
indexes (f64_options indexed fast) = indexed
indexes (date_options indexed fast) = indexed

abbrev pub is_columnar : FieldOptions → Bool
is_columnar string_stored = false
is_columnar bytes_stored = false
is_columnar full_text = false
is_columnar (raw_text indexed fast) = fast
is_columnar (i64_options indexed fast) = fast
is_columnar (f64_options indexed fast) = fast
is_columnar (date_options indexed fast) = fast

-- The schema's field for a name is what the mapping's specification asks for: one of its type, indexed
-- and fast as it says, or none if it is neither or there is no specification.
abbrev pub IsAsked : Option FieldSpec → Option FieldOptions → Type 0
IsAsked none options = options ≡ none
IsAsked (some spec) none = (spec.indexed ≡ false) × (spec.fast ≡ false)
IsAsked (some spec) (some options) =
    ((spec.indexed || spec.fast) ≡ true)
    × (value_type options ≡ some spec.ty)
    × (indexes options ≡ spec.indexed)
    × (is_columnar options ≡ spec.fast)

abbrev NotFastText : Option FieldSpec → Type 0
NotFastText none = Unit
NotFastText (some spec) = spec.ty ≡ text → spec.fast ≡ false
