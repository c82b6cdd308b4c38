-- ===== src/Core/Catalog/Names.antt =====
-- The names that a collection may have: `validate_name` of crates/core/src/catalog.rs.
use lumen.Base.{
  ℕ, ◌≤◌, ◌<◌, Text, Bool, true, false, not, ◌&&◌, ◌||◌, [], ◌∷◌, length, all, All, ltb, leb, ◌==◌,
  if◌then◌else◌, ok, err, ◌≡◌, ◌↔◌, ◌⊎◌, refl, arith,
}
use lumen.Core.Error.{Fallible, validation, name_length, reserved_name, name_alphabet}
use lumen.Core.Mapping.{is_empty, starts_with}

abbrev pub max_name_len : ℕ
max_name_len = 255

unfoldable pub is_name_byte : ℕ → Bool
is_name_byte b =
    (leb b'a' b && leb b b'z') || ((leb b'0' b && leb b b'9') || (b == b'-' || b == b'_'))

unfoldable pub validate_name : Text → Fallible (Unit {0})
validate_name name =
    if is_empty name || ltb max_name_len (length name)
    then err (validation name_length)
    else if starts_with b'_' name
    then err (validation (reserved_name name))
    else if not (all is_name_byte name)
    then err (validation (name_alphabet name))
    else ok tt

-- The bytes of `[a-z0-9_-]`.
abbrev pub IsNameByte : ℕ → Type 0
IsNameByte b = ((b'a' ≤ b) × (b ≤ b'z')) ⊎ ((b'0' ≤ b) × (b ≤ b'9')) ⊎ (b ≡ b'-') ⊎ (b ≡ b'_')

-- A name of one to 255 bytes of the alphabet, whose first is not an underscore.
pub record IsName (name : Text) : Type 0 where
  pub some_bytes : 0 < length name
  pub few_bytes : length name ≤ max_name_len
  pub not_reserved : starts_with b'_' name ≡ false
  pub alphabet : All IsNameByte name

is_name_byte_iff : (b : ℕ) → (is_name_byte b ≡ true) ↔ IsNameByte b
unfolding is_name_byte
is_name_byte_iff b = ground arith

all-All : (s : Text) → all is_name_byte s ≡ true → All IsNameByte s
unfolding all
all-All [] h = tt
all-All (b ∷ s) h = ((is_name_byte_iff b).0 (ground arith), all-All s (ground arith))

All-all : (s : Text) → All IsNameByte s → all is_name_byte s ≡ true
unfolding all
All-all [] h = refl
All-all (b ∷ s) h = rw ((is_name_byte_iff b).1 h.0) (All-all s h.1)

validate_name-IsName : (name : Text) → validate_name name ≡ ok tt → IsName name
unfolding validate_name
validate_name-IsName [] h = cc
validate_name-IsName (c ∷ s) h = record {
  some_bytes = omega arith;
  few_bytes = ground arith;
  not_reserved = ground arith;
  alphabet = all-All (c ∷ s) (ground arith);
}

IsName-validate_name : (name : Text) → IsName name → validate_name name ≡ ok tt
unfolding validate_name
IsName-validate_name [] v = absurd (omega (arith, v.some_bytes))
IsName-validate_name (c ∷ s) v =
    ground (arith, v.few_bytes, v.not_reserved, All-all (c ∷ s) v.alphabet)

-- `validate_name` accepts exactly these names.
pub validate_name_iff : (name : Text) → (validate_name name ≡ ok tt) ↔ IsName name
validate_name_iff name = (validate_name-IsName name, IsName-validate_name name)
