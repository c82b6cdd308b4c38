-- ===== src/Examples/Instances.antt =====
-- Small functions that keep the hypotheses on serde_json, tantivy, uuid, prost, crc32c and openraft.
use lumen.Base.{
  ℕ, zero, suc, ◌%◌, u32_mod, ◌<◌, ◌≤◌, ◌≡◌, refl, sym, ap, subst, Text, Bool, true, false, Option,
  none, some, List, [], ◌∷◌, ◌++◌, map, take, drop, length, ok, err, arith,
}
use lumen.Core.Error.{Fallible}
use lumen.Core.Json.{JsonApi, is_some}
use lumen.Core.Mapping.Schema.{Schema}
use lumen.Core.Document.{Document}
use lumen.Core.Tantivy.{TantivyApi, LogMark, having, without, stored}
use lumen.Core.Log.Frame.{Bytes}
use lumen.Core.Wal.{Externals}
use lumen.Proto.Openraft.{MembershipApi, BTreeSet}
use lumen.Proto.Command as Proto
use lumen.Examples.Encodings.{encode_snapshot, decode_snapshot}

abbrev pub length_sum : Bytes → ℕ
length_sum b = length b % u32_mod

pub length_sum_u32 : (b : Bytes) → length_sum b < u32_mod
length_sum_u32 b = omega arith

-- A text, or an object of texts.
pub data Value : Type 0 where
  string : Text → Value
  object : List (Text × Text) → Value

abbrev as_object : Value → Option (List (Text × Value))
as_object (string s) = none
as_object (object members) = some (map (λ (m : Text × Text). (m.0, string m.1)) members)

abbrev as_string : Value → Option Text
as_string (string s) = some s
as_string (object members) = none

abbrev is_text : Value → Bool
is_text (string s) = true
is_text (object members) = false

pub is_text-as_string : (v : Value) → is_text v ≡ is_some (as_string v)
is_text-as_string (string s) = refl
is_text-as_string (object members) = refl

abbrev pub texts : JsonApi
texts = record {
  Value = Value;
  I64 = ℕ;
  F64 = ℕ;
  DateTime = ℕ;
  from_slice = λ source. some (object ((source, source) ∷ []));
  as_object = as_object;
  is_string = is_text;
  as_str = as_string;
  is_i64 = λ v. false;
  as_i64 = λ v. none;
  is_number = λ v. false;
  as_f64 = λ v. none;
  parse_rfc3339 = λ s. none;
  string_as_str = λ v. is_text-as_string v;
  i64_as_i64 = λ v. refl;
  number_as_f64 = λ v h. h;
}

-- An index in memory.
pub record Memory : Type 0 where
  pub schema : Schema
  pub payload : Option Text
  pub searchable : List (Document texts)
  pub pending : List (Document texts)

abbrev pub from_marks : Text → Option LogMark
from_marks (term ∷ node ∷ index ∷ []) = some (record { term = term; node = node; index = index })
from_marks _ = none

abbrev opened_or : Memory → Fallible Memory → Memory
opened_or default (ok i) = i
opened_or default (err e) = default

abbrev created_schema : Fallible Memory → Schema → Schema
created_schema (ok i) default = i.schema
created_schema (err e) default = default

-- A query is for an `_id`, or for all documents.
abbrev pub hits : Option Text → Memory → List (Document texts)
hits none i = i.searchable
hits (some id) i = having id i.searchable

abbrev pub scored : Document texts → Unit {0} × Document texts
scored d = (tt, d)

abbrev pub page : ℕ → ℕ → List (Document texts) → List (Unit {0} × Document texts)
page limit offset docs = map scored (take limit (drop offset docs))

length-page : (n : ℕ) (docs : List (Document texts)) → length (map scored (take n docs)) ≤ n
length-page zero docs = omega arith
length-page (suc n) [] = omega arith
length-page (suc n) (d ∷ docs) = omega (arith, length-page n docs)

pub page_limit :
    (limit offset : ℕ) (docs : List (Document texts)) → length (page limit offset docs) ≤ limit
page_limit limit offset docs = length-page limit (drop offset docs)

abbrev page_of : Fallible (List (Unit {0} × Document texts)) → List (Unit {0} × Document texts)
page_of (ok top) = top
page_of (err e) = []

abbrev pub memory : TantivyApi texts
memory = record {
  Index = Memory;
  Query = Option Text;
  Address = Document texts;
  Score = Unit;
  create = λ s. ok (record { schema = s; payload = none; searchable = []; pending = [] });
  reopen = λ i. ok (record i { pending = i.searchable });
  schema = λ i. i.schema;
  delete_term = λ id i. record i { pending = without id i.pending };
  add_document = λ d i. (ok tt, record i { pending = i.pending ++ d ∷ [] });
  commit = λ p i. (ok tt, record i { payload = some p; searchable = i.pending });
  payload = λ i. i.payload;
  parse_query = λ names text i. some none;
  id_query = λ id. some id;
  count = λ q i. ok (length (hits q i));
  top_docs = λ limit offset q i. ok (page limit offset (hits q i));
  doc = λ a i. ok (stored a);
  mark_to_string = λ m. m.term ∷ m.node ∷ m.index ∷ [];
  mark_from_str = from_marks;
  searchable = λ i. i.searchable;
  pending = λ i. i.pending;
  mark_round_trip = λ m. refl;
  schema_create = λ s i h. ap (λ r. created_schema r s) (sym h);
  schema_reopen = λ i j h. ap (λ r. created_schema r i.schema) (sym h);
  searchable_reopen = λ i j h. ap (λ r. (opened_or i r).searchable) (sym h);
  pending_reopen = λ i j h. ap (λ r. (opened_or i r).pending) (sym h);
  payload_reopen = λ i j h. ap (λ r. (opened_or i r).payload) (sym h);
  schema_delete = λ id i. refl;
  schema_add = λ d i. refl;
  schema_commit = λ p i. refl;
  payload_delete = λ id i. refl;
  payload_add = λ d i. refl;
  payload_commit = λ p i j h. ap (λ r. r.1.payload) (sym h);
  pending_delete = λ id i. refl;
  pending_add = λ d i j h. ap (λ r. r.1.pending) (sym h);
  searchable_commit = λ p i j h. ap (λ r. r.1.searchable) (sym h);
  pending_commit = λ p i j h. ap (λ r. r.1.pending) (sym h);
  top_limit = λ limit offset q i top h.
      subst (λ t. length t ≤ limit) (ap page_of h) (page_limit limit offset (hits q i));
  count_id = λ id i. refl;
  top_of_none = λ id i h. ap (λ ds. ok (page 1 0 ds)) h;
  top_of_one = λ id i d h. (tt, d, ap (λ ds. ok (page 1 0 ds)) h, refl);
}

abbrev parse_one : Text → Option ℕ
parse_one (u ∷ []) = some u
parse_one _ = none

abbrev decode_number : Bytes → Option Proto.WalEntry
decode_number (seq ∷ []) = some (record { seq = seq; command = none })
decode_number _ = none

abbrev pub numbers : Externals
numbers = record {
  parse_uuid = parse_one;
  uuid_text = λ u. u ∷ [];
  encode = λ e. e.seq ∷ [];
  decode = decode_number;
  encode_snapshot = encode_snapshot;
  decode_snapshot = decode_snapshot;
  crc32c = length_sum;
  crc_u32 = length_sum_u32;
  uuid_round_trip = λ u. refl;
}

-- A membership of one voter.
abbrev single : List (BTreeSet ℕ) → ℕ
single (((i, u) ∷ []) ∷ []) = i
single _ = 0

abbrev pub one_voter : MembershipApi
one_voter = record {
  Membership = ℕ;
  new = λ sets nodes. single sets;
  get_joint_config = λ i. ((i, tt) ∷ []) ∷ [];
  nodes = λ i. (i, record { node_id = i; rpc_addr = i ∷ [] }) ∷ [];
  sets_sorted = λ i. ((tt, tt), tt);
  nodes_sorted = λ i. (tt, tt);
  new_accessors = λ i. refl;
}
