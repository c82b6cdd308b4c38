-- ===== src/Core/Catalog/Committed.antt =====
-- What is committed after a checkpoint (crates/core/src/catalog.rs, `commit_all` and
-- `min_committed_mark`).
use lumen.Base.{
  ℕ, Text, text_ord, nat_ord, Option, none, some, [], ◌∷◌, BTreeMap, get, insert, get-insert_self,
  get-insert_ne, Result, ok, err, ◌≡◌, ◌≢◌, refl, sym, ap, ◌∙◌, subst, le→leb, inl, inr, ◌⊎◌, arith,
}
use native.Mathlib.Decide.{ℕ_discrete}
use lumen.Core.Error.{Error, done}
use lumen.Core.Json.{JsonApi}
use lumen.Core.Tantivy.{TantivyApi, LogMark}
use lumen.Core.Collection.{commit, committed_mark}
use lumen.Core.Collection.Commits.{committed_mark-commit}
use lumen.Core.Wal.{Externals}
use lumen.Core.Catalog.State.{
  Catalog, Entry, Action, pure, fail, lift, gets, modify, bind_done, ◌>>=◌, ◌>>◌,
}
use lumen.Core.Catalog.Store.{
  with_index, persist, mark_of, min_mark, min_marks, min_committed_mark, commit_entry, commit_each,
  commit_all,
}
use lumen.Core.Catalog.Apply.{checkpoint_applied}
use lumen.Core.Catalog.State as State

pub get_found :
    (name n : Text) (e entry : Entry) (rest : BTreeMap Text Entry)
    → get name ((n, e) ∷ rest) ≡ some entry
    → (e ≡ entry) ⊎ (get name rest ≡ some entry)
unfolding get
get_found name n e entry rest h = ground arith

module _ {json : JsonApi} (tantivy : TantivyApi json) where
  open tantivy use {Index}

  -- The index under a uuid has the mark.
  abbrev pub IsCommitted : LogMark → ℕ → BTreeMap ℕ Index → Type 0
  IsCommitted mark uuid dirs =
      (i : Index) × (get uuid dirs ≡ some i) × (committed_mark tantivy i ≡ ok (some mark))

  pub mark_of-IsCommitted :
      (mark : LogMark) (entry : Entry) (c : Catalog Index)
      → IsCommitted mark entry.uuid c.dirs
      → mark_of tantivy entry c ≡ (done mark, c)
  unfolding mark_of
  mark_of-IsCommitted mark entry c (i, e, m) = rw (e, mark_of) (rw m refl)

  -- A commit of an entry that succeeds replaces its index by one that is committed.
  commit_entry_done :
      (mark : LogMark) (entry : Entry) (c c' : Catalog Index) (found : Option Index)
      → get entry.uuid c.dirs ≡ found
      → commit_entry tantivy mark entry c ≡ (done tt, c')
      → (j : Index) × (committed_mark tantivy j ≡ ok (some mark))
        × (c' ≡ record c { dirs = insert entry.uuid j c.dirs })
  unfolding commit_entry with_index
  commit_entry_done mark entry c c' none e h = ground arith
  commit_entry_done mark entry c c' (some i) e h = committed (commit tantivy mark i) refl
    where
      committed :
          (r : Result Error (Unit {0}) × Index)
          → commit tantivy mark i ≡ r
          → (j : Index) × (committed_mark tantivy j ≡ ok (some mark))
            × (c' ≡ record c { dirs = insert entry.uuid j c.dirs })
      committed (err x, j) q = ground arith
      committed (ok u, j) q = (j, committed_mark-commit tantivy mark i j q, ground arith)

  commit_entry-IsCommitted :
      (mark : LogMark) (entry : Entry) (c c' : Catalog Index)
      → commit_entry tantivy mark entry c ≡ (done tt, c')
      → IsCommitted mark entry.uuid c'.dirs
        × (c'.collections ≡ c.collections)
        × ((u : ℕ) → IsCommitted mark u c.dirs → IsCommitted mark u c'.dirs)
  commit_entry-IsCommitted mark entry c c' h =
      let (j, m, e) = commit_entry_done mark entry c c' _ refl h in
      rw e ((j, get-insert_self entry.uuid j c.dirs, m), refl, kept j m)
    where
      kept :
          (j : Index)
          → committed_mark tantivy j ≡ ok (some mark)
          → (u : ℕ) → IsCommitted mark u c.dirs
          → IsCommitted mark u (insert entry.uuid j c.dirs)
      kept j m u (i, g, n) = elim (ℕ_discrete entry.uuid u) [
        | yes e ↦ (
          j,
          subst (λ v. get v (insert entry.uuid j c.dirs) ≡ some j) e
              (get-insert_self entry.uuid j c.dirs),
          m,
        )
        | no ne ↦ (i, get-insert_ne entry.uuid u j c.dirs ne ∙ g, n)
      ]

  -- Every entry's index is committed at the mark.
  abbrev pub AreCommitted : LogMark → BTreeMap Text Entry → BTreeMap ℕ Index → Type 0
  AreCommitted mark [] dirs = Unit
  AreCommitted mark ((name, entry) ∷ rest) dirs =
      IsCommitted mark entry.uuid dirs × AreCommitted mark rest dirs

  commit_each-AreCommitted :
      (mark : LogMark) (entries : BTreeMap Text Entry) (c c' : Catalog Index)
      → commit_each tantivy mark entries c ≡ (done tt, c')
      → AreCommitted mark entries c'.dirs
        × (c'.collections ≡ c.collections)
        × ((u : ℕ) → IsCommitted mark u c.dirs → IsCommitted mark u c'.dirs)
  unfolding commit_each
  commit_each-AreCommitted mark [] c c' h = (
    tt,
    ap (λ r. r.1.collections) (sym h),
    λ u k. subst (IsCommitted mark u) (ap (λ r. r.1.dirs) h) k,
  )
  commit_each-AreCommitted mark ((name, entry) ∷ rest) c c' h =
      let (_, d, e, g) =
        bind_done (commit_entry tantivy mark entry) (λ _. commit_each tantivy mark rest) c tt c'
          h in
      let (now, same, keep) = commit_entry-IsCommitted mark entry c d e in
      let (later, same', keep') = commit_each-AreCommitted mark rest d c' g in
      ((keep' entry.uuid now, later), same' ∙ same, λ u k. keep' u (keep u k))

  -- The entry of a name is one of those that are committed.
  pub get-AreCommitted :
      (mark : LogMark) (entries : BTreeMap Text Entry) (dirs : BTreeMap ℕ Index) (name : Text)
      (entry : Entry)
      → AreCommitted mark entries dirs
      → get name entries ≡ some entry
      → IsCommitted mark entry.uuid dirs
  unfolding get
  get-AreCommitted mark [] dirs name entry k h = ground arith
  get-AreCommitted mark ((n, e) ∷ rest) dirs name entry k h =
      elim (get_found name n e entry rest h) [
        | inl y ↦ subst (λ x. IsCommitted mark x.uuid dirs) y k.0
        | inr y ↦ get-AreCommitted mark rest dirs name entry k.1 y
      ]

  module _ (ext : Externals) where
    pub checkpoint-AreCommitted :
        (mark : LogMark) (c c' : Catalog Index)
        → checkpoint_applied tantivy ext mark c ≡ (done tt, c')
        → AreCommitted mark c'.collections c'.dirs × (c'.collections ≡ c.collections)
    unfolding checkpoint_applied commit_all
    checkpoint-AreCommitted mark c c' h =
        let (_, d, e, g) =
          bind_done (commit_each tantivy mark c.collections) (λ _. modify (persist ext mark.index))
            c tt c' h in
        let (all, same, keep) = commit_each-AreCommitted mark c.collections c d e in
        let e' : persist ext mark.index d ≡ c' = ap (λ r. r.1) g in
        subst (λ x. AreCommitted mark x.collections x.dirs × (x.collections ≡ c.collections)) e'
          (unfold persist in (subst (λ x. AreCommitted mark x d.dirs) (sym same) all, same))

    min_marks-AreCommitted :
        (mark : LogMark) (entries : BTreeMap Text Entry) (c : Catalog Index)
        → AreCommitted mark entries c.dirs
        → min_marks tantivy entries (some mark) c ≡ (done (some mark), c)
    unfolding min_marks min_mark
    min_marks-AreCommitted mark [] c k = refl
    min_marks-AreCommitted mark ((name, entry) ∷ rest) c k =
        ap
          (λ r.
            (let (o, d) = r in
              State.continue (λ m. min_marks tantivy rest (min_mark (some mark) m)) o d))
          (mark_of-IsCommitted mark entry c k.0)
        ∙ rw (le→leb mark.index mark.index (omega arith)) (min_marks-AreCommitted mark rest c k.1)

    min_of_committed :
        (mark : LogMark) (entries : BTreeMap Text Entry) (c : Catalog Index)
        → AreCommitted mark entries c.dirs
        → entries ≢ []
        → min_marks tantivy entries none c ≡ (done (some mark), c)
    unfolding min_marks min_mark
    min_of_committed mark [] c k ne = absurd (ne refl)
    min_of_committed mark ((name, entry) ∷ rest) c k ne =
        ap (λ r. (let (o, d) = r in State.continue (λ m. min_marks tantivy rest (some m)) o d))
          (mark_of-IsCommitted mark entry c k.0)
        ∙ min_marks-AreCommitted mark rest c k.1

    -- After a checkpoint at a mark, the least committed mark of a catalog with a collection is
    -- the mark.
    pub min_committed_mark-checkpoint :
        (mark : LogMark) (c c' : Catalog Index)
        → checkpoint_applied tantivy ext mark c ≡ (done tt, c')
        → c.collections ≢ []
        → min_committed_mark tantivy c' ≡ (done (some mark), c')
    min_committed_mark-checkpoint mark c c' h ne =
        let (k, same) = checkpoint-AreCommitted mark c c' h in
        unfold min_committed_mark in
        min_of_committed mark c'.collections c' k λ e. ne (sym same ∙ e)
