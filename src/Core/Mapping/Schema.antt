-- ===== src/Core/Mapping/Schema.antt =====
-- The Tantivy schema of a mapping: `to_schema` and `numeric_opts` of crates/core/src/mapping.rs. A
-- schema is the sequence of the builder's calls, and `get_field` finds the one with a name.
use lumen.Base.{
  Text, bytes, text_ord, text_cmp, Bool, true, not, ◌&&◌, ◌||◌, Option, none, some, List, [], ◌∷◌,
  BTreeMap, IsSorted, Below, get, ◌≡◌, refl, ap, ◌∙◌, arith, if◌then◌else◌, text_cmp_eq,
}
use lumen.Core.Mapping.{text, keyword, i64, f64, date, FieldSpec, Mapping, starts_with}
use lumen.Core.Mapping.Valid.{AreValid}

pub data FieldOptions : Type 0 where
  -- `STRING.set_stored()`, `BytesOptions::default().set_stored()`, `TEXT`
  string_stored bytes_stored full_text : FieldOptions
  -- the options with `indexed` and `fast` set or not
  raw_text i64_options f64_options date_options : Bool → Bool → FieldOptions

abbrev pub Schema : Type 0
Schema = List (Text × FieldOptions)

abbrev pub id_field : Text
id_field = bytes "_id"

abbrev pub source_field : Text
source_field = bytes "_source"

unfoldable pub field_options : FieldSpec → FieldOptions
field_options spec = elim spec.ty [
  | text ↦ full_text
  | keyword ↦ raw_text spec.indexed spec.fast
  | i64 ↦ i64_options spec.indexed spec.fast
  | f64 ↦ f64_options spec.indexed spec.fast
  | date ↦ date_options spec.indexed spec.fast
]

-- The `for` loop of `to_schema`.
unfoldable pub add_fields : BTreeMap Text FieldSpec → Schema
add_fields [] = []
add_fields ((name, spec) ∷ fields) =
    let rest = add_fields fields in
    if not spec.indexed && not spec.fast then rest else (name, field_options spec) ∷ rest

unfoldable pub to_schema : Mapping → Schema
to_schema m = (id_field, string_stored) ∷ (source_field, bytes_stored) ∷ add_fields m.fields

unfoldable pub get_field : Schema → Text → Option FieldOptions
unfolding get text_cmp
get_field schema name = get name schema

-- The options that a field's specification asks for.
abbrev pub wanted : Option FieldSpec → Option FieldOptions
wanted none = none
wanted (some spec) = if spec.indexed || spec.fast then some (field_options spec) else none

get-Below : (k : Text) (m : BTreeMap Text FieldSpec) → Below k m → get k m ≡ none
unfolding get
get-Below k [] b = refl
get-Below k ((j, v) ∷ m) b = ground (arith, get-Below k m b.1)

pub get-add_fields :
    (m : BTreeMap Text FieldSpec) (name : Text)
    → IsSorted m
    → get name (add_fields m) ≡ wanted (get name m)
unfolding get add_fields
get-add_fields [] name s = refl
get-add_fields ((k, spec) ∷ m) name s =
    ground (arith, get-add_fields m name s.1, get-Below k m s.0, text_cmp_eq name k)

get-reserved :
    (m : BTreeMap Text FieldSpec) (k : Text)
    → AreValid m
    → starts_with b'_' k ≡ true
    → get k m ≡ none
unfolding get
get-reserved [] k v r = refl
get-reserved ((j, spec) ∷ m) k v r =
    ground (arith, get-reserved m k v.1 r, v.0.not_reserved, text_cmp_eq k j, starts_eq)
  where
    starts_eq : k ≡ j → starts_with b'_' k ≡ starts_with b'_' j
    starts_eq e = ap (starts_with b'_') e

-- The name of each call to the builder is not that of an earlier one.
abbrev pub IsDistinct : Schema → Type 0
IsDistinct [] = Unit
IsDistinct ((k, options) ∷ schema) = (get k schema ≡ none) × IsDistinct schema

Below-add_fields : (k : Text) (m : BTreeMap Text FieldSpec) → Below k m → Below k (add_fields m)
unfolding add_fields
Below-add_fields k [] b = tt
Below-add_fields k ((j, spec) ∷ m) b = ground (arith, Below-add_fields k m b.1)

get-Below_options : (k : Text) (m : Schema) → Below k m → get k m ≡ none
unfolding get
get-Below_options k [] b = refl
get-Below_options k ((j, v) ∷ m) b = ground (arith, get-Below_options k m b.1)

add_fields-IsDistinct : (m : BTreeMap Text FieldSpec) → IsSorted m → IsDistinct (add_fields m)
unfolding add_fields
add_fields-IsDistinct [] s = tt
add_fields-IsDistinct ((k, spec) ∷ m) s = ground (
  arith,
  add_fields-IsDistinct m s.1,
  get-Below_options k (add_fields m) (Below-add_fields k m s.0),
)

get_reserved-add_fields :
    (m : BTreeMap Text FieldSpec) (k : Text)
    → IsSorted m
    → AreValid m
    → starts_with b'_' k ≡ true
    → get k (add_fields m) ≡ none
get_reserved-add_fields m k s v r = get-add_fields m k s ∙ ap wanted (get-reserved m k v r)

-- The schema of a valid mapping gives each field name once, the two system fields included.
pub to_schema-IsDistinct :
    (m : Mapping) → IsSorted m.fields → AreValid m.fields → IsDistinct (to_schema m)
unfolding to_schema get text_cmp add_fields
to_schema-IsDistinct m s v = (
  get_reserved-add_fields m.fields id_field s v refl,
  (get_reserved-add_fields m.fields source_field s v refl, add_fields-IsDistinct m.fields s),
)
