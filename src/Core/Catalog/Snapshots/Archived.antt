-- ===== src/Core/Catalog/Snapshots/Archived.antt =====
-- What an archive holds of the collections (`archive_into` of crates/core/src/collection.rs).
use lumen.Base.{
  ℕ, Text, text_ord, text_eq, text_eq_iff, nat_ord, none, some, List, [], ◌∷◌, All, BTreeMap, get,
  insert, get-insert_self, get-insert_ne, Option-cases, Result-cases, ok, err_ok, ok_inj, inl, inr,
  ◌≡◌, ◌⊎◌, refl, sym, ◌∙◌, subst, Bool-cases, Bool, true, false, arith,
}
use native.Mathlib.Decide.{ℕ_discrete}
use lumen.Core.Log.Frame.{Bytes}
use lumen.Core.Json.{JsonApi}
use lumen.Core.Tantivy.{TantivyApi}
use lumen.Core.Catalog.State.{Entry}
use lumen.Core.Catalog.Snapshots.{
  Files, AreCopied, Directories, copy_files, listed, archive_into, archive_each,
}

-- A name has in a directory what it has in another, or nothing yet.
IsPart : Files → Files → Text → Type 0
IsPart from dest name = (get name dest ≡ none) ⊎ (get name dest ≡ get name from)

not_both : {b : Bool} → b ≡ true → b ≡ false → ⊥
not_both h k = ground arith

-- A name is the one that is inserted, or is found as before.
get-insert_other :
    (n name : Text) (content : Bytes) (dest : Files)
    → (n ≡ name) ⊎ (get name (insert n content dest) ≡ get name dest)
get-insert_other n name content dest = elim (Bool-cases (text_eq n name)) [
  | inl q ↦ inl ((text_eq_iff n name).0 q)
  | inr q ↦ inr (
      get-insert_ne n name content dest (λ same. absurd (not_both ((text_eq_iff n name).1 same) q)))
]

-- Copying a file keeps the agreement of two directories on a name.
insert_agrees :
    (n name : Text) (content : Bytes) (from dest : Files)
    → get n from ≡ some content
    → get name dest ≡ get name from
    → get name (insert n content dest) ≡ get name from
insert_agrees n name content from dest e h = elim (get-insert_other n name content dest) [
  | inl q ↦
      subst (λ t. get t (insert n content dest) ≡ get t from) q
        (get-insert_self n content dest ∙ sym e)
  | inr q ↦ q ∙ h
]

insert-IsPart :
    (n name : Text) (content : Bytes) (from dest : Files)
    → get n from ≡ some content
    → IsPart from dest name
    → IsPart from (insert n content dest) name
unfolding IsPart
insert-IsPart n name content from dest e h = elim (get-insert_other n name content dest) [
  | inl q ↦ inr (
      subst (λ t. get t (insert n content dest) ≡ get t from) q
        (get-insert_self n content dest ∙ sym e))
  | inr q ↦ elim h [ inl g ↦ inl (q ∙ g) | inr g ↦ inr (q ∙ g) ]
]

-- A file that is copied is kept as it was by the copies after it.
copy_files-kept :
    (names : List Text) (from dest : Files) (name : Text)
    → get name dest ≡ get name from
    → get name (copy_files names from dest) ≡ get name from
unfolding copy_files
copy_files-kept [] from dest name h = h
copy_files-kept (n ∷ names) from dest name h = elim (Option-cases (get n from)) [
  | inl e ↦ rw (e, copy_files) (copy_files-kept names from dest name h)
  | inr (content, e) ↦
      rw (e, copy_files)
        (copy_files-kept names from (insert n content dest) name
          (insert_agrees n name content from dest e h))
]

-- Copying files into an empty directory copies them.
copy_files-AreCopied :
    (names : List Text) (from dest : Files)
    → ((name : Text) → IsPart from dest name)
    → AreCopied from (copy_files names from dest) names
unfolding copy_files IsPart
copy_files-AreCopied [] from dest h = tt
copy_files-AreCopied (n ∷ names) from dest h = elim (Option-cases (get n from)) [
  | inl e ↦
      let step : copy_files (n ∷ names) from dest ≡ copy_files names from dest =
        rw (e, copy_files) refl in
      subst (λ x. AreCopied from x (n ∷ names)) (sym step)
        (
          copy_files-kept names from dest n (elim (h n) [ inl g ↦ g ∙ sym e | inr g ↦ g ]),
          copy_files-AreCopied names from dest h,
        )
  | inr (content, e) ↦
      let step : copy_files (n ∷ names) from dest ≡ copy_files names from (insert n content dest) =
        rw (e, copy_files) refl in
      subst (λ x. AreCopied from x (n ∷ names)) (sym step)
        (
          copy_files-kept names from (insert n content dest) n
              (get-insert_self n content dest ∙ sym e),
          copy_files-AreCopied names from (insert n content dest)
              (λ name. insert-IsPart n name content from dest e (h name)),
        )
]

module _ {json : JsonApi} (tantivy : TantivyApi json) (directories : Directories tantivy) where
  open tantivy use {Index}

  -- An index that has the commit of another one.
  pub record HasCommit (i j : Index) : Type 0 where
    pub searchable : tantivy.searchable j ≡ tantivy.searchable i
    pub payload : tantivy.payload j ≡ tantivy.payload i
    pub schema : tantivy.schema j ≡ tantivy.schema i

  -- The directory that is archived for an index has its last commit.
  archive_into-HasCommit :
      (i : Index) (files : Files)
      → archive_into tantivy directories i ≡ ok files
      → HasCommit i (directories.dir_of files)
  unfolding archive_into IsPart
  archive_into-HasCommit i files h = elim (Result-cases (directories.reload i)) [
    | inl (x, e) ↦ absurd (err_ok x files (rw (e, archive_into) at h))
    | inr (u, e) ↦ elim (Result-cases (directories.load_metas i)) [
      | inl (x, q) ↦ absurd (err_ok x files (rw (e, archive_into, q) at h))
      | inr (segments, q) ↦
          let same = ok_inj _ files (rw (e, archive_into, q) at h) in
          let copied : AreCopied (directories.files i) files (listed segments) =
            subst (λ x. AreCopied (directories.files i) x (listed segments)) same
              (copy_files-AreCopied (listed segments) (directories.files i) []
                (λ name. inl refl)) in
          record {
            searchable = directories.searchable_copied i segments files q copied;
            payload = directories.payload_copied i segments files q copied;
            schema = directories.schema_copied i segments files q copied;
          }
    ]
  ]

  -- A directory is staged that has the commit of the index under a uuid.
  unfoldable pub IsStaged : BTreeMap ℕ Index → BTreeMap ℕ Files → ℕ → Type 0
  IsStaged dirs staging uuid =
      (i : Index) × (files : Files) × (get uuid dirs ≡ some i)
      × (get uuid staging ≡ some files)
      × HasCommit i (directories.dir_of files)

  insert-IsStaged :
      (u v : ℕ) (i : Index) (files : Files) (dirs : BTreeMap ℕ Index) (staging : BTreeMap ℕ Files)
      → get u dirs ≡ some i
      → HasCommit i (directories.dir_of files)
      → IsStaged dirs staging v
      → IsStaged dirs (insert u files staging) v
  unfolding IsStaged
  insert-IsStaged u v i files dirs staging at commit h = elim (ℕ_discrete u v) [
    | yes e ↦
        subst (IsStaged dirs (insert u files staging)) e
          (i, files, at, get-insert_self u files staging, commit)
    | no ne ↦ (h.0, h.1, h.2, get-insert_ne u v files staging ne ∙ h.3, h.4)
  ]

  -- Every collection is staged with its last commit.
  pub archive_each-IsStaged :
      (entries : BTreeMap Text Entry) (staging staging' : BTreeMap ℕ Files)
      (dirs : BTreeMap ℕ Index)
      → archive_each tantivy directories entries staging dirs ≡ ok staging'
      → All (λ (e : Text × Entry). IsStaged dirs staging' e.1.uuid) entries
        × ((v : ℕ) → IsStaged dirs staging v → IsStaged dirs staging' v)
  unfolding archive_each IsStaged
  archive_each-IsStaged [] staging staging' dirs h =
      (tt, λ v s. subst (λ x. IsStaged dirs x v) (ok_inj staging staging' h) s)
  archive_each-IsStaged ((name, entry) ∷ rest) staging staging' dirs h =
      elim (Option-cases (get entry.uuid dirs)) [
        | inl e ↦ absurd (err_ok _ staging' (rw (e, archive_each) at h))
        | inr (i, e) ↦ elim (Result-cases (archive_into tantivy directories i)) [
          | inl (x, q) ↦ absurd (err_ok x staging' (rw (e, archive_each, q) at h))
          | inr (files, q) ↦
              let commit = archive_into-HasCommit i files q in
              let (all, kept) =
                archive_each-IsStaged rest (insert entry.uuid files staging) staging' dirs
                  (rw (e, archive_each, q) at h) in
              (
                (
                  kept entry.uuid (i, files, e, get-insert_self entry.uuid files staging, commit),
                  all,
                ),
                λ v s. kept v (insert-IsStaged entry.uuid v i files dirs staging e commit s),
              )
        ]
      ]
