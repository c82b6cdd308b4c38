-- ===== src/Core/Mapping/Equality.antt =====
-- The derived `PartialEq` of crates/core/src/mapping.rs.
use lumen.Base.{
  Text, text_cmp, text_cmp_eq, text_eq, Bool, true, false, ◌&&◌, [], ◌∷◌, BTreeMap, ◌≡◌, ◌↔◌, arith,
}
use lumen.Core.Mapping.{FieldType, text, keyword, i64, f64, date, FieldSpec, Mapping}

unfoldable pub ty_eq : FieldType → FieldType → Bool
ty_eq text text = true
ty_eq keyword keyword = true
ty_eq i64 i64 = true
ty_eq f64 f64 = true
ty_eq date date = true
ty_eq _ _ = false

abbrev bool_eq : Bool → Bool → Bool
bool_eq true b = b
bool_eq false true = false
bool_eq false false = true

unfoldable pub spec_eq : FieldSpec → FieldSpec → Bool
unfolding ty_eq
spec_eq a b = ty_eq a.ty b.ty && (bool_eq a.indexed b.indexed && bool_eq a.fast b.fast)

unfoldable pub fields_eq : BTreeMap Text FieldSpec → BTreeMap Text FieldSpec → Bool
unfolding spec_eq text_cmp
fields_eq [] [] = true
fields_eq [] (e ∷ n) = false
fields_eq (e ∷ m) [] = false
fields_eq ((j, a) ∷ m) ((k, b) ∷ n) = text_eq j k && (spec_eq a b && fields_eq m n)

unfoldable pub mapping_eq : Mapping → Mapping → Bool
unfolding fields_eq
mapping_eq a b = fields_eq a.fields b.fields

ty_eq_iff : (a b : FieldType) → (ty_eq a b ≡ true) ↔ (a ≡ b)
unfolding ty_eq
ty_eq_iff a b = ground arith

spec_eq_iff : (a b : FieldSpec) → (spec_eq a b ≡ true) ↔ (a ≡ b)
unfolding spec_eq
spec_eq_iff a b = ground arith

fields_eq_iff : (m n : BTreeMap Text FieldSpec) → (fields_eq m n ≡ true) ↔ (m ≡ n)
unfolding fields_eq
fields_eq_iff [] [] = ground arith
fields_eq_iff [] (e ∷ n) = ground arith
fields_eq_iff (e ∷ m) [] = ground arith
fields_eq_iff ((j, a) ∷ m) ((k, b) ∷ n) =
    ground (arith, text_cmp_eq j k, spec_eq_iff a b, fields_eq_iff m n)

-- The derived equality of mappings holds exactly of equal mappings.
pub mapping_eq_iff : (a b : Mapping) → (mapping_eq a b ≡ true) ↔ (a ≡ b)
unfolding mapping_eq
mapping_eq_iff a b = ground (arith, fields_eq_iff a.fields b.fields)
