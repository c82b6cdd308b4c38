-- ===== src/Core/Mapping.antt =====
-- Mappings of a collection's fields and the validation against them, crates/core/src/mapping.rs.
pub mod Schema
pub mod Asked
pub mod Equality
pub mod Valid
pub mod Wire
use lumen.Base.{
  ℕ, Text, bytes, text_cmp, text_ord, text_eq, Bool, true, false, not, Option, none, some, List, [],
  ◌∷◌, map, BTreeMap, get, insert, insert_all, contains, Result, ok, err, ok_or, ◌>>=◌, ◌>>◌,
  if◌then◌else◌, ◌==◌, ◌&&◌,
}
use lumen.Core.Error.{
  Error, Fallible, mapping_error, validation, empty_field_name, reserved_field_name,
  fast_text_field, unspecified_field_type, unknown_field_type, duplicate_field, not_an_object,
  unmapped_field, unexpected_type,
}
use lumen.Core.Json.{JsonApi}
use lumen.Proto.Command as Proto

pub data FieldType : Type 0 where
  text keyword i64 f64 date : FieldType

unfoldable pub as_str : FieldType → Text
as_str text = bytes "text"
as_str keyword = bytes "keyword"
as_str i64 = bytes "i64"
as_str f64 = bytes "f64"
as_str date = bytes "date"

pub record FieldSpec : Type 0 where
  pub ty : FieldType
  pub indexed : Bool
  pub fast : Bool

pub record Mapping : Type 0 where
  pub fields : BTreeMap Text FieldSpec

abbrev is_text : FieldType → Bool
is_text text = true
is_text _ = false

abbrev pub starts_with : ℕ → Text → Bool
starts_with b [] = false
starts_with b (c ∷ s) = c == b

abbrev pub is_empty : Text → Bool
is_empty [] = true
is_empty (c ∷ s) = false

unfoldable pub validate_field : Text → FieldSpec → Fallible (Unit {0})
validate_field name spec =
    if is_empty name
    then err (mapping_error empty_field_name)
    else if starts_with b'_' name
    then err (mapping_error (reserved_field_name name))
    else if is_text spec.ty && spec.fast
    then err (mapping_error (fast_text_field name))
    else ok tt

-- The `for` loop of `Mapping::new`.
unfoldable pub validate_fields : BTreeMap Text FieldSpec → Fallible (Unit {0})
unfolding validate_field
validate_fields [] = ok tt
validate_fields ((name, spec) ∷ fields) = do validate_field name spec; validate_fields fields

-- `Mapping::new`.
unfoldable pub new : BTreeMap Text FieldSpec → Fallible Mapping
new fields = do validate_fields fields; ok (record { fields = fields })

unfoldable pub field : Mapping → Text → Option FieldSpec
unfolding get text_cmp
field m name = get name m.fields

-- The conversions from and to the enum of the messages, and its numbers there.
unfoldable pub field_type_into : FieldType → Proto.FieldType
field_type_into text = Proto.FieldType.text
field_type_into keyword = Proto.FieldType.keyword
field_type_into i64 = Proto.FieldType.i64
field_type_into f64 = Proto.FieldType.f64
field_type_into date = Proto.FieldType.date

unfoldable pub field_type_try_from : Proto.FieldType → Fallible FieldType
field_type_try_from Proto.FieldType.unspecified = err (mapping_error unspecified_field_type)
field_type_try_from Proto.FieldType.text = ok text
field_type_try_from Proto.FieldType.keyword = ok keyword
field_type_try_from Proto.FieldType.i64 = ok i64
field_type_try_from Proto.FieldType.f64 = ok f64
field_type_try_from Proto.FieldType.date = ok date

unfoldable pub mapping_into : Mapping → Proto.Mapping
unfolding field_type_into
mapping_into m = record {
  fields =
      map
        (λ (e : Text × FieldSpec). record {
          name = e.0;
          ty = Proto.number (field_type_into e.1.ty);
          indexed = e.1.indexed;
          fast = e.1.fast;
        })
        m.fields;
}

unfoldable pub field_spec_try_from : Proto.Field → Fallible FieldSpec
unfolding field_type_try_from
field_spec_try_from f = do
  proto_ty ← ok_or (Proto.from_number f.ty) (mapping_error (unknown_field_type f.ty f.name))
  ty ← field_type_try_from proto_ty
  ok (record { ty = ty; indexed = f.indexed; fast = f.fast })

-- The `for` loop of `TryFrom<proto::Mapping>`.
unfoldable pub collect_fields :
    List Proto.Field → BTreeMap Text FieldSpec → Fallible (BTreeMap Text FieldSpec)
unfolding field_spec_try_from contains insert
collect_fields [] fields = ok fields
collect_fields (f ∷ rest) fields = do
  spec ← field_spec_try_from f
  let more = collect_fields rest (insert f.name spec fields)
  if contains f.name fields then err (mapping_error (duplicate_field f.name)) else more

unfoldable pub mapping_try_from : Proto.Mapping → Fallible Mapping
mapping_try_from m = do fields ← collect_fields m.fields []; new fields

-- The form in which serde reads and writes a mapping.
pub record FieldDto : Type 0 where
  pub ty : FieldType
  pub indexed : Bool
  pub fast : Bool

pub record MappingDto : Type 0 where
  pub fields : BTreeMap Text FieldDto

unfoldable pub dto_into : Mapping → MappingDto
unfolding insert_all
dto_into m = record {
  fields =
      insert_all
        (map
          (λ (e : Text × FieldSpec).
            (e.0, record { ty = e.1.ty; indexed = e.1.indexed; fast = e.1.fast }))
          m.fields)
        [];
}

unfoldable pub dto_try_from : MappingDto → Fallible Mapping
unfolding insert_all
dto_try_from dto = new (
    insert_all
      (map
        (λ (e : Text × FieldDto).
          (e.0, record { ty = e.1.ty; indexed = e.1.indexed; fast = e.1.fast }))
        dto.fields)
      [])

module _ (json : JsonApi) where
  open json use {Value}

  unfoldable pub value_matches : Value → FieldType → Bool
  value_matches value text = json.is_string value
  value_matches value keyword = json.is_string value
  value_matches value i64 = json.is_i64 value
  value_matches value f64 = json.is_number value
  value_matches value date = elim (json.as_str value) [
    | none ↦ false
    | some s ↦ elim (json.parse_rfc3339 s) [ none ↦ false | some t ↦ true ]
  ]

  -- The `for` loop of `validate_document`.
  unfoldable pub validate_values :
      BTreeMap Text FieldSpec → List (Text × Value) → Fallible (Unit {0})
  unfolding value_matches as_str
  validate_values fields [] = ok tt
  validate_values fields ((name, value) ∷ object) = do
    spec ← ok_or (get name fields) (validation (unmapped_field name))
    let rest = validate_values fields object
    if not (value_matches value spec.ty)
        then err (validation (unexpected_type name (as_str spec.ty)))
        else rest

  unfoldable pub validate_document : Mapping → Value → Fallible (Unit {0})
  validate_document m document = do
    object ← ok_or (json.as_object document) (validation not_an_object)
    validate_values m.fields object
