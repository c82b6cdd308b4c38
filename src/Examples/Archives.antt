-- ===== src/Examples/Archives.antt =====
-- Indexes that have one document or none, with the files that say which.
use lumen.Base.{
  ℕ, zero, suc, ◌≤◌, ◌≡◌, refl, sym, ap, ◌∙◌, subst, Text, bytes, Bool, Bool-cases, inl, inr, true,
  false, not, err_ok, retain, length, Option, none, some, List, [], ◌∷◌, ok, err, get, text_cmp,
  text_ord,
}
use lumen.Core.Error.{Fallible, tantivy}
use lumen.Core.Mapping.{Mapping}
use lumen.Core.Mapping.Schema.{to_schema}
use lumen.Core.Document.{Document, text_value, bytes_value}
use lumen.Core.Log.Frame.{Bytes}
use lumen.Core.Tantivy.{TantivyApi, having, without, has_id, stored}
use lumen.Core.Catalog.Snapshots.{Files, AreCopied, Directories, meta_file, listed}
use lumen.Examples.Instances.{texts, from_marks, page, page_limit}

abbrev pub only_document : Document texts
only_document =
    (bytes "_id", text_value (bytes "a")) ∷ (bytes "_source", bytes_value (bytes "tag")) ∷ []

abbrev documents : Bool → List (Document texts)
documents true = only_document ∷ []
documents false = []

abbrev pub no_fields : Mapping
no_fields = record { fields = [] }

pub record Single : Type 0 where
  pub payload : Option Text
  pub searchable : Bool
  pub pending : Bool

abbrev kept : Text → Bool → Bool
kept id false = false
kept id true = not (has_id id only_document)

pub documents-kept : (id : Text) (b : Bool) → documents (kept id b) ≡ without id (documents b)
unfolding without
documents-kept id false = refl
documents-kept id true = elim (Bool-cases (has_id id only_document)) [
  | inl e ↦ rw (e, without, retain) refl
  | inr e ↦ rw (e, without, retain) refl
]

abbrev hits : Option Text → Bool → List (Document texts)
hits none b = documents b
hits (some id) b = having id (documents b)

abbrev opened : Fallible Single → Single → Single
opened (ok i) default = i
opened (err e) default = default

abbrev top_of : Fallible (List (Unit {0} × Document texts)) → List (Unit {0} × Document texts)
top_of (ok top) = top
top_of (err e) = []

-- No index of this kind is created and no document is added.
abbrev pub singles : TantivyApi texts
singles = record {
  Index = Single;
  Query = Option Text;
  Address = Document texts;
  Score = Unit;
  create = λ s. err (tantivy []);
  reopen = λ i. ok (record i { pending = i.searchable });
  schema = λ i. to_schema no_fields;
  delete_term = λ id i. record i { pending = kept id i.pending };
  add_document = λ d i. (err (tantivy []), i);
  commit = λ p i. (ok tt, record i { payload = some p; searchable = i.pending });
  payload = λ i. i.payload;
  parse_query = λ names text i. some none;
  id_query = λ id. some id;
  count = λ q i. ok (length (hits q i.searchable));
  top_docs = λ limit offset q i. ok (page limit offset (hits q i.searchable));
  doc = λ a i. ok (stored a);
  mark_to_string = λ m. m.term ∷ m.node ∷ m.index ∷ [];
  mark_from_str = from_marks;
  searchable = λ i. documents i.searchable;
  pending = λ i. documents i.pending;
  mark_round_trip = λ m. refl;
  schema_create = λ s i h. absurd (err_ok (tantivy []) i h);
  schema_reopen = λ i j h. refl;
  searchable_reopen = λ i j h. ap (λ r. documents (opened r i).searchable) (sym h);
  pending_reopen = λ i j h. ap (λ r. documents (opened r i).pending) (sym h);
  payload_reopen = λ i j h. ap (λ r. (opened r i).payload) (sym h);
  schema_delete = λ id i. refl;
  schema_add = λ d i. refl;
  schema_commit = λ p i. refl;
  payload_delete = λ id i. refl;
  payload_add = λ d i. refl;
  payload_commit = λ p i j h. ap (λ r. r.1.payload) (sym h);
  pending_delete = λ id i. documents-kept id i.pending;
  pending_add = λ d i j h. absurd (err_ok (tantivy []) tt (ap (λ r. r.0) h));
  searchable_commit = λ p i j h. ap (λ r. documents r.1.searchable) (sym h);
  pending_commit = λ p i j h. ap (λ r. documents r.1.pending) (sym h);
  top_limit = λ limit offset q i top h.
      subst (λ t. length t ≤ limit) (ap top_of h) (page_limit limit offset (hits q i.searchable));
  count_id = λ id i. refl;
  top_of_none = λ id i h. ap (λ ds. ok (page 1 0 ds)) h;
  top_of_one = λ id i d h. (tt, d, ap (λ ds. ok (page 1 0 ds)) h, refl);
}

-- `meta.json` has a byte for the document, and the payload after it.
abbrev flag : Bool → ℕ
flag true = 1
flag false = 0

abbrev meta_bytes : Option Text → Bool → Bytes
meta_bytes none b = flag b ∷ []
meta_bytes (some p) b = flag b ∷ 0 ∷ p

abbrev unflag : ℕ → Bool
unflag zero = false
unflag (suc n) = true

abbrev single_of : Option Bytes → Single
single_of (some (f ∷ [])) = record { payload = none; searchable = unflag f; pending = unflag f }
single_of (some (f ∷ z ∷ p)) = record {
  payload = some p;
  searchable = unflag f;
  pending = unflag f;
}
single_of _ = record { payload = none; searchable = false; pending = false }

pub single_of-meta_bytes :
    (p : Option Text) (b : Bool)
    → ((single_of (some (meta_bytes p b))).searchable ≡ b)
      × ((single_of (some (meta_bytes p b))).payload ≡ p)
single_of-meta_bytes none true = (refl, refl)
single_of-meta_bytes none false = (refl, refl)
single_of-meta_bytes (some p) true = (refl, refl)
single_of-meta_bytes (some p) false = (refl, refl)

abbrev single_files : Single → Files
single_files i = (meta_file, meta_bytes i.payload i.searchable) ∷ []

pub meta_copied :
    (i : Single) (segments : List (List Text)) (copied : Files)
    → AreCopied (single_files i) copied (listed segments)
    → get meta_file copied ≡ some (meta_bytes i.payload i.searchable)
unfolding listed get text_cmp
meta_copied i segments copied h = h.0

abbrev pub single_dirs : Directories singles
unfolding text_cmp get
single_dirs = record {
  files = single_files;
  dir_of = λ files. single_of (get meta_file files);
  reload = λ i. ok tt;
  load_metas = λ i. ok [];
  searchable_copied = λ i segments copied e h.
      ap (λ m. documents (single_of m).searchable) (meta_copied i segments copied h)
      ∙ ap documents (single_of-meta_bytes i.payload i.searchable).0;
  payload_copied = λ i segments copied e h.
      ap (λ m. (single_of m).payload) (meta_copied i segments copied h)
      ∙ (single_of-meta_bytes i.payload i.searchable).1;
  schema_copied = λ i segments copied e h. refl;
}
