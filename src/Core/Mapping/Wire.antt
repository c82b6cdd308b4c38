-- ===== src/Core/Mapping/Wire.antt =====
-- Mappings through the messages and through serde (crates/core/src/mapping.rs).
use lumen.Base.{
  Text, text_ord, none, some, List, [], ◌∷◌, ◌++◌, map, All, BTreeMap, IsSorted, Below, Joins,
  Joins-snoc, Joins-nil, get, get-none-Above, get-insert_self, get-insert_ne, insert, insert-Above,
  insert_all-nil, append_assoc, append-nil, ok, err, ◌≡◌, refl, ap, ◌∙◌, arith,
}
use lumen.Core.Error.{Fallible}
use lumen.Core.Mapping.{
  FieldSpec, Mapping, new, validate_fields, field_type_into, mapping_into, field_spec_try_from,
  collect_fields, mapping_try_from, FieldDto, dto_into, dto_try_from,
}
use lumen.Core.Mapping.Valid.{AreValid, AreValid-validate_fields, validate_fields-AreValid}
use lumen.Proto.Command as Proto

abbrev wire_field : Text × FieldSpec → Proto.Field
unfolding field_type_into
wire_field e = record {
  name = e.0;
  ty = Proto.number (field_type_into e.1.ty);
  indexed = e.1.indexed;
  fast = e.1.fast;
}

spec_round_trip :
    (name : Text) (spec : FieldSpec)
    → field_spec_try_from (record {
      name = name;
      ty = Proto.number (field_type_into spec.ty);
      indexed = spec.indexed;
      fast = spec.fast;
    })
      ≡ ok spec
unfolding field_spec_try_from field_type_into Proto.from_number
spec_round_trip name spec = ground arith

collect_one :
    (f : Proto.Field) (spec : FieldSpec) (rest : List Proto.Field)
    (fields : BTreeMap Text FieldSpec)
    → field_spec_try_from f ≡ ok spec
    → get f.name fields ≡ none
    → collect_fields (f ∷ rest) fields ≡ collect_fields rest (insert f.name spec fields)
unfolding collect_fields
collect_one f spec rest fields e g = ground (arith, e, g)

-- The fields of a sorted map are collected behind those that are there.
collect_sorted :
    (m fields : BTreeMap Text FieldSpec)
    → IsSorted m
    → Joins fields m
    → collect_fields
        (map
          (λ (e : Text × FieldSpec). record {
            name = e.0;
            ty = Proto.number (field_type_into e.1.ty);
            indexed = e.1.indexed;
            fast = e.1.fast;
          })
          m)
        fields
      ≡ ok (fields ++ m)
collect_sorted [] fields s j = unfold collect_fields in rw (append-nil fields)
collect_sorted ((name, spec) ∷ m) fields s j =
    collect_one _ spec _ fields (spec_round_trip name spec) (get-none-Above name fields j.0)
    ∙ rw (insert-Above name spec fields j.0) (
        collect_sorted m (fields ++ (name, spec) ∷ []) s.1 (Joins-snoc name spec fields m s.0 j.1)
        ∙ ap ok (append_assoc fields ((name, spec) ∷ []) m))

-- A valid mapping survives the conversion to its message and back.
pub mapping_round_trip :
    (m : Mapping) → IsSorted m.fields → AreValid m.fields → mapping_try_from (mapping_into m) ≡ ok m
unfolding mapping_try_from mapping_into
mapping_round_trip m s v =
    rw (collect_sorted m.fields [] s (Joins-nil m.fields))
      (unfold new in rw (AreValid-validate_fields m.fields v))

as_dto : BTreeMap Text FieldSpec → BTreeMap Text FieldDto
as_dto = map (λ (e : Text × FieldSpec).
    (e.0, record { ty = e.1.ty; indexed = e.1.indexed; fast = e.1.fast }))

Below-as_dto : (k : Text) (m : BTreeMap Text FieldSpec) → Below k m → Below k (as_dto m)
unfolding as_dto
Below-as_dto k [] b = tt
Below-as_dto k (e ∷ m) b = (b.0, Below-as_dto k m b.1)

IsSorted-as_dto : (m : BTreeMap Text FieldSpec) → IsSorted m → IsSorted (as_dto m)
unfolding as_dto
IsSorted-as_dto [] s = tt
IsSorted-as_dto ((k, v) ∷ m) s = (Below-as_dto k m s.0, IsSorted-as_dto m s.1)

back-as_dto :
    (m : BTreeMap Text FieldSpec)
    → map
        (λ (e : Text × FieldDto).
          (e.0, record { ty = e.1.ty; indexed = e.1.indexed; fast = e.1.fast }))
        (as_dto m)
      ≡ m
unfolding as_dto
back-as_dto [] = refl
back-as_dto (e ∷ m) = ap (λ l. e ∷ l) (back-as_dto m)

-- A valid mapping survives the form that serde writes, and the way back from it.
pub dto_round_trip :
    (m : Mapping) → IsSorted m.fields → AreValid m.fields → dto_try_from (dto_into m) ≡ ok m
dto_round_trip m s v =
    let e : (dto_into m).fields ≡ as_dto m.fields =
      unfold dto_into as_dto in insert_all-nil _ (unfold as_dto in IsSorted-as_dto m.fields s) in
    unfold dto_try_from new in
    rw (e, back-as_dto m.fields, insert_all-nil m.fields s, AreValid-validate_fields m.fields v)

-- Every field of an accepted message.
abbrev pub AreKept : BTreeMap Text FieldSpec → List Proto.Field → Type 0
AreKept m =
    All (λ f. (spec : FieldSpec) × (field_spec_try_from f ≡ ok spec) × (get f.name m ≡ some spec))

collect_step :
    (f : Proto.Field) (rest : List Proto.Field) (fields m : BTreeMap Text FieldSpec)
    → collect_fields (f ∷ rest) fields ≡ ok m
    → (spec : FieldSpec) × (field_spec_try_from f ≡ ok spec)
      × (get f.name fields ≡ none)
      × (collect_fields rest (insert f.name spec fields) ≡ ok m)
collect_step f rest fields m h = go (field_spec_try_from f) refl
  where
    go :
        (r : Fallible FieldSpec)
        → field_spec_try_from f ≡ r
        → (spec : FieldSpec) × (field_spec_try_from f ≡ ok spec)
          × (get f.name fields ≡ none)
          × (collect_fields rest (insert f.name spec fields) ≡ ok m)
    go (err e) q = absurd (unfold collect_fields in ground arith)
    go (ok spec) q =
        (spec, q, (unfold collect_fields in ground arith), (unfold collect_fields in ground arith))

kept_before :
    (rest : List Proto.Field) (fields m : BTreeMap Text FieldSpec) (name : Text) (spec : FieldSpec)
    → collect_fields rest fields ≡ ok m
    → get name fields ≡ some spec
    → get name m ≡ some spec
kept_before [] fields m name spec h g = unfold collect_fields in ground arith
kept_before (f ∷ rest) fields m name spec h g =
    let (s, _, fresh, h') = collect_step f rest fields m h in
    kept_before rest (insert f.name s fields) m name spec h'
      (get-insert_ne f.name name s fields (λ e. cc) ∙ g)

collect-AreKept :
    (fs : List Proto.Field) (fields m : BTreeMap Text FieldSpec)
    → collect_fields fs fields ≡ ok m
    → AreKept m fs
collect-AreKept [] fields m h = tt
collect-AreKept (f ∷ rest) fields m h =
    let (s, e, fresh, h') = collect_step f rest fields m h in
    (
      (
        s,
        e,
        kept_before rest (insert f.name s fields) m f.name s h' (get-insert_self f.name s fields),
      ),
      collect-AreKept rest (insert f.name s fields) m h',
    )

-- A message that is accepted gives a valid mapping in which every field of the message has the
-- specification that the message gives it.
pub mapping_try_from-AreKept :
    (w : Proto.Mapping) (m : Mapping)
    → mapping_try_from w ≡ ok m
    → AreValid m.fields × AreKept m.fields w.fields
mapping_try_from-AreKept w m h = go (collect_fields w.fields []) refl
  where
    go :
        (r : Fallible (BTreeMap Text FieldSpec))
        → collect_fields w.fields [] ≡ r
        → AreValid m.fields × AreKept m.fields w.fields
    go (err e) q = absurd (unfold mapping_try_from in ground arith)
    go (ok fields) q =
        let e : new fields ≡ ok m = unfold mapping_try_from in ground arith in
        let same : fields ≡ m.fields = unfold new in ground arith in
        let valid : validate_fields fields ≡ ok tt = unfold new in ground arith in
        rw (← same) (validate_fields-AreValid fields valid, collect-AreKept w.fields [] fields q)
