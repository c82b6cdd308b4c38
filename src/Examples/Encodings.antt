-- ===== src/Examples/Encodings.antt =====
-- A small encoding of the catalog's snapshot, in place of prost's: a text and a list have their
-- length first, and an absent mapping is a zero.
use lumen.Base.{
  ℕ, zero, suc, Bool, true, false, Text, Option, none, some, List, [], ◌∷◌, ◌++◌, length, take,
  drop, Result, ok, err, ◌>>=◌,
}
use lumen.Core.Log.Frame.{Bytes}
use lumen.Proto.Command as Proto

abbrev Decoder : Type 0 → Type 0
Decoder A = Bytes → Result (Unit {0}) (A × Bytes)

abbrev put_text : Text → Bytes
put_text t = length t ∷ t

abbrev put_bool : Bool → ℕ
put_bool false = 0
put_bool true = 1

abbrev put_fields : List Proto.Field → Bytes
put_fields [] = []
put_fields (f ∷ fields) =
    put_text f.name ++ f.ty ∷ put_bool f.indexed ∷ put_bool f.fast ∷ put_fields fields

abbrev put_mapping : Option Proto.Mapping → Bytes
put_mapping none = 0 ∷ []
put_mapping (some m) = suc (length m.fields) ∷ put_fields m.fields

abbrev put_entries : List Proto.CatalogEntry → Bytes
put_entries [] = []
put_entries (e ∷ entries) =
    put_text e.name
    ++ (put_text e.uuid ++ (put_mapping e.mapping ++ e.created_seq ∷ put_entries entries))

abbrev pub encode_snapshot : Proto.CatalogSnapshot → Bytes
encode_snapshot s = s.applied_seq ∷ length s.entries ∷ put_entries s.entries

abbrev get_number : Decoder ℕ
get_number [] = err tt
get_number (n ∷ rest) = ok (n, rest)

abbrev get_text : Decoder Text
get_text [] = err tt
get_text (n ∷ rest) = ok (take n rest, drop n rest)

abbrev is_one : ℕ → Bool
is_one (suc zero) = true
is_one _ = false

abbrev get_fields : ℕ → Decoder (List Proto.Field)
get_fields zero bytes = ok ([], bytes)
get_fields (suc n) bytes = do
  name ← get_text bytes
  ty ← get_number name.1
  indexed ← get_number ty.1
  fast ← get_number indexed.1
  fields ← get_fields n fast.1
  ok (
    record { name = name.0; ty = ty.0; indexed = is_one indexed.0; fast = is_one fast.0 }
        ∷ fields.0,
    fields.1,
  )

abbrev get_mapping : Decoder (Option Proto.Mapping)
get_mapping [] = err tt
get_mapping (zero ∷ rest) = ok (none, rest)
get_mapping (suc n ∷ rest) = do
  fields ← get_fields n rest
  ok (some (record { fields = fields.0 }), fields.1)

abbrev get_entries : ℕ → Decoder (List Proto.CatalogEntry)
get_entries zero bytes = ok ([], bytes)
get_entries (suc n) bytes = do
  name ← get_text bytes
  uuid ← get_text name.1
  mapping ← get_mapping uuid.1
  created_seq ← get_number mapping.1
  entries ← get_entries n created_seq.1
  ok (
    record { name = name.0; uuid = uuid.0; mapping = mapping.0; created_seq = created_seq.0 }
        ∷ entries.0,
    entries.1,
  )

abbrev to_option : {A : Type 0} → Result (Unit {0}) A → Option A
to_option (err e) = none
to_option (ok a) = some a

abbrev pub decode_snapshot : Bytes → Option Proto.CatalogSnapshot
decode_snapshot bytes = to_option (do
  applied_seq ← get_number bytes
  count ← get_number applied_seq.1
  entries ← get_entries count.0 count.1
  ok (record { applied_seq = applied_seq.0; entries = entries.0 }))
