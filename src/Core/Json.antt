-- ===== src/Core/Json.antt =====
-- serde_json's `Value` and the date parser of the `time` crate, as crates/core uses them. They are
-- a parameter, with what the documentation of their accessors says.
use lumen.Base.{ℕ, Text, Bool, true, false, Option, none, some, List, ◌≡◌}

abbrev pub is_some {ℓ} : {A : Type ℓ} → Option A → Bool
is_some none = false
is_some (some a) = true

pub record JsonApi : Type 1 where
  pub Value : Type 0
  pub I64 : Type 0
  pub F64 : Type 0
  pub DateTime : Type 0
  -- `serde_json::from_slice`
  pub from_slice : List ℕ → Option Value
  -- the members of an object, in the order of its iterator
  pub as_object : Value → Option (List (Text × Value))
  pub is_string : Value → Bool
  pub as_str : Value → Option Text
  pub is_i64 : Value → Bool
  pub as_i64 : Value → Option I64
  pub is_number : Value → Bool
  pub as_f64 : Value → Option F64
  -- `OffsetDateTime::parse(s, &Rfc3339)`
  pub parse_rfc3339 : Text → Option DateTime
  pub string_as_str : (v : Value) → is_string v ≡ is_some (as_str v)
  pub i64_as_i64 : (v : Value) → is_i64 v ≡ is_some (as_i64 v)
  pub number_as_f64 : (v : Value) → is_number v ≡ true → is_some (as_f64 v) ≡ true
