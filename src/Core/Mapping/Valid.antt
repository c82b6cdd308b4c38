-- ===== src/Core/Mapping/Valid.antt =====
-- What `Mapping::new` of crates/core/src/mapping.rs accepts.
use lumen.Base.{Text, text_ord, false, [], ◌∷◌, All, BTreeMap, ok, ◌≡◌, ◌≢◌, ◌↔◌, refl, arith}
use lumen.Core.Mapping.{text, FieldSpec, starts_with, validate_field, validate_fields, new}

-- A field has a name that is not reserved, and a text field is not fast.
pub record IsValidField (name : Text) (spec : FieldSpec) : Type 0 where
  pub named : name ≢ []
  pub not_reserved : starts_with b'_' name ≡ false
  pub not_fast_text : spec.ty ≡ text → spec.fast ≡ false

validate_field-IsValidField :
    (name : Text) (spec : FieldSpec) → validate_field name spec ≡ ok tt → IsValidField name spec
unfolding validate_field
validate_field-IsValidField [] spec h = cc
validate_field-IsValidField (c ∷ name) spec h = record {
  named = λ e. cc;
  not_reserved = ground arith;
  not_fast_text = λ e. ground arith;
}

IsValidField-validate_field :
    (name : Text) (spec : FieldSpec) → IsValidField name spec → validate_field name spec ≡ ok tt
unfolding validate_field
IsValidField-validate_field [] spec v = absurd (v.named refl)
IsValidField-validate_field (c ∷ name) spec v = ground (arith, v.not_reserved, v.not_fast_text)

abbrev pub AreValid : BTreeMap Text FieldSpec → Type 0
AreValid = All (λ e. IsValidField e.0 e.1)

pub validate_fields-AreValid :
    (fields : BTreeMap Text FieldSpec) → validate_fields fields ≡ ok tt → AreValid fields
unfolding validate_fields
validate_fields-AreValid [] h = tt
validate_fields-AreValid ((name, spec) ∷ fields) h = (
  validate_field-IsValidField name spec (ground arith),
  validate_fields-AreValid fields (ground arith),
)

pub AreValid-validate_fields :
    (fields : BTreeMap Text FieldSpec) → AreValid fields → validate_fields fields ≡ ok tt
unfolding validate_fields
AreValid-validate_fields [] v = refl
AreValid-validate_fields ((name, spec) ∷ fields) v =
    rw (IsValidField-validate_field name spec v.0) (AreValid-validate_fields fields v.1)

-- `new` returns the mapping with the given fields exactly if every field is valid.
pub new_iff :
    (fields : BTreeMap Text FieldSpec)
    → (new fields ≡ ok (record { fields = fields })) ↔ AreValid fields
unfolding new
new_iff fields = (
  λ h. validate_fields-AreValid fields (ground arith),
  λ v. rw (AreValid-validate_fields fields v),
)
