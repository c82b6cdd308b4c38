-- ===== src/Core/Document/Validated.antt =====
-- A document that the mapping accepts can be built (crates/core/src/document.rs after
-- `validate_document` of crates/core/src/mapping.rs).
use lumen.Base.{
  ℕ, Text, true, Option, none, some, List, [], ◌∷◌, ◌++◌, map, retain, append_assoc, append-nil, ok,
  get, text_ord, ◌≡◌, refl, sym, ap, ◌∙◌, arith, Option-cases, inl, inr, BTreeMap,
}
use lumen.Core.Json.{JsonApi, is_some}
use lumen.Core.Mapping.{
  FieldType, text, keyword, i64, f64, date, FieldSpec, Mapping, field, value_matches,
  validate_values, validate_document,
}
use lumen.Core.Mapping.Schema.{Schema, FieldOptions, get_field, id_field, source_field, to_schema}
use lumen.Core.Document.{
  DocValue, Document, text_value, bytes_value, i64_value, f64_value, date_value, value_of,
  add_values, build_doc,
}

module _ (json : JsonApi) where
  open json use {Value}

  is_some_cases : {A : Type 0} (o : Option A) → is_some o ≡ true → (a : A) × (o ≡ some a)
  is_some_cases none h = cc
  is_some_cases (some a) h = (a, refl)

  date_matches :
      (value : Value)
      → value_matches json value date ≡ true
      → (v : DocValue json) × (value_of json value date ≡ ok v)
  date_matches value h = elim (Option-cases (json.as_str value)) [
    | inl no_text ↦ absurd (unfold value_matches in ground (arith, no_text))
    | inr (s, is_text) ↦ elim (Option-cases (json.parse_rfc3339 s)) [
      | inl no_date ↦ absurd (unfold value_matches in ground (arith, is_text, no_date))
      | inr (t, is_date) ↦ (date_value t, unfold value_of in rw (is_text, is_date))
    ]
  ]

  -- A value that matches a field's type can be added to the field.
  value_matches-value_of :
      (value : Value) (ty : FieldType)
      → value_matches json value ty ≡ true
      → (v : DocValue json) × (value_of json value ty ≡ ok v)
  value_matches-value_of value text h =
      let (s, e) =
        is_some_cases (json.as_str value)
          (sym (json.string_as_str value) ∙ (unfold value_matches in h)) in
      (text_value s, unfold value_of in rw e)
  value_matches-value_of value keyword h =
      let (s, e) =
        is_some_cases (json.as_str value)
          (sym (json.string_as_str value) ∙ (unfold value_matches in h)) in
      (text_value s, unfold value_of in rw e)
  value_matches-value_of value i64 h =
      let (n, e) =
        is_some_cases (json.as_i64 value)
          (sym (json.i64_as_i64 value) ∙ (unfold value_matches in h)) in
      (i64_value n, unfold value_of in rw e)
  value_matches-value_of value f64 h =
      let (x, e) =
        is_some_cases (json.as_f64 value) (json.number_as_f64 value (unfold value_matches in h)) in
      (f64_value x, unfold value_of in rw e)
  value_matches-value_of value date h = date_matches value h

  -- What the validation of a member says of it and of the rest.
  validate_step :
      (fields : BTreeMap Text FieldSpec) (name : Text) (value : Value)
      (object : List (Text × Value))
      → validate_values json fields ((name, value) ∷ object) ≡ ok tt
      → (spec : FieldSpec) × (get name fields ≡ some spec)
        × (value_matches json value spec.ty ≡ true)
        × (validate_values json fields object ≡ ok tt)
  validate_step fields name value object h = elim (Option-cases (get name fields)) [
    | inl unmapped ↦ absurd (unfold validate_values in ground (arith, unmapped))
    | inr (spec, mapped) ↦ (
      spec,
      mapped,
      (unfold validate_values in ground (arith, mapped)),
      (unfold validate_values in ground (arith, mapped)),
    )
  ]

  -- The members that have a field in the schema.
  abbrev names_in : Schema → List (Text × Value) → List Text
  names_in schema object =
      retain (λ n. is_some (get_field schema n)) (map (λ (e : Text × Value). e.0) object)

  module _ (schema : Schema) where
    names_absent :
        (name : Text) (value : Value) (object : List (Text × Value))
        → get_field schema name ≡ none
        → names_in schema ((name, value) ∷ object) ≡ names_in schema object
    unfolding retain
    names_absent name value object e = rw e

    names_present :
        (name : Text) (value : Value) (object : List (Text × Value)) (options : FieldOptions)
        → get_field schema name ≡ some options
        → names_in schema ((name, value) ∷ object) ≡ name ∷ names_in schema object
    unfolding retain
    names_present name value object options e = rw e

    module _ (m : Mapping) (name : Text) (value : Value) (object : List (Text × Value))
        (doc : Document json) where
      add_absent :
          get_field schema name ≡ none
          → add_values json schema m ((name, value) ∷ object) doc
            ≡ add_values json schema m object doc
      unfolding add_values
      add_absent e = rw (e, add_values)

      add_present :
          (options : FieldOptions) (spec : FieldSpec) (v : DocValue json)
          → get_field schema name ≡ some options
          → get name m.fields ≡ some spec
          → value_of json value spec.ty ≡ ok v
          → add_values json schema m ((name, value) ∷ object) doc
            ≡ add_values json schema m object (doc ++ (name, v) ∷ [])
      unfolding add_values
      add_present options spec v present mapped is_v =
          let mapped' : field m name ≡ some spec = unfold field in mapped in
          rw (present, add_values) (rw (mapped', is_v))

  add_values_validated :
      (schema : Schema) (m : Mapping) (object : List (Text × Value)) (doc : Document json)
      → validate_values json m.fields object ≡ ok tt
      → (more : Document json) × (add_values json schema m object doc ≡ some (ok (doc ++ more)))
        × (map (λ (e : Text × DocValue json). e.0) more ≡ names_in schema object)
  add_values_validated schema m [] doc h =
      ([], unfold add_values in rw (append-nil doc), unfold retain in refl)
  add_values_validated schema m ((name, value) ∷ object) doc h =
      let (spec, mapped, matches, h') = validate_step m.fields name value object h in
      let (v, e) = value_matches-value_of value spec.ty matches in
      elim (Option-cases (get_field schema name)) [
        | inl absent ↦
            let (more, built, names) = add_values_validated schema m object doc h' in
            (
              more,
              add_absent schema m name value object doc absent ∙ built,
              names ∙ sym (names_absent schema name value object absent),
            )
        | inr (options, present) ↦
            let (more, built, names) =
              add_values_validated schema m object (doc ++ (name, v) ∷ []) h' in
            (
              (name, v) ∷ more,
              add_present schema m name value object doc options spec v present mapped e
                  ∙ built
                  ∙ ap (λ d. some (ok d)) (append_assoc doc ((name, v) ∷ []) more),
              ap (λ l. name ∷ l) names
                  ∙ sym (names_present schema name value object options present),
            )
      ]

  build_doc_object :
      (m : Mapping) (id : Text) (source : List ℕ) (parsed : Value) (object : List (Text × Value))
      → json.as_object parsed ≡ some object
      → build_doc json (to_schema m) m id source parsed
        ≡ add_values json
            (to_schema m)
            m
            object
            ((id_field, text_value id) ∷ (source_field, bytes_value source) ∷ [])
  unfolding build_doc get_field to_schema
  build_doc_object m id source parsed object e = rw e

  -- `build_doc` on a document that the mapping accepts neither panics nor fails. The document has
  -- the id, the source, and a value for each member of the object that has a field in the schema.
  pub build_doc_validated :
      (m : Mapping) (id : Text) (source : List ℕ) (parsed : Value) (object : List (Text × Value))
      → json.as_object parsed ≡ some object
      → validate_document json m parsed ≡ ok tt
      → (more : Document json) × (build_doc json (to_schema m) m id source parsed
          ≡ some (ok ((id_field, text_value id) ∷ (source_field, bytes_value source) ∷ more)))
        × (map (λ (e : Text × DocValue json). e.0) more
            ≡ retain
                (λ n. is_some (get_field (to_schema m) n))
                (map (λ (e : Text × Value). e.0) object))
  build_doc_validated m id source parsed object is_object valid =
      let valid' : validate_values json m.fields object ≡ ok tt =
        unfold validate_document in ground (arith, is_object) in
      let (more, built, names) =
        add_values_validated (to_schema m) m object
          ((id_field, text_value id) ∷ (source_field, bytes_value source) ∷ []) valid' in
      (more, build_doc_object m id source parsed object is_object ∙ built, names)
