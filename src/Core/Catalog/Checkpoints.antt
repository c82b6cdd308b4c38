-- ===== src/Core/Catalog/Checkpoints.antt =====
-- What readers see after a checkpoint (`checkpoint` and `commit_all` of crates/core/src/catalog.rs).
use lumen.Base.{
  ℕ, Text, text_ord, nat_ord, some, [], ◌∷◌, BTreeMap, get, insert, get-insert_self, get-insert_ne,
  ok, err, ◌≡◌, refl, sym, ap, ◌∙◌, subst, inl, inr, some_inj, arith,
}
use native.Mathlib.Decide.{ℕ_discrete}
use lumen.Core.Error.{Fallible, Outcome, done, failed_done, outcome}
use lumen.Core.Json.{JsonApi}
use lumen.Core.Tantivy.{TantivyApi, LogMark}
use lumen.Core.Collection.{commit}
use lumen.Core.Collection.Reads.{schema-commit}
use lumen.Core.Wal.{Externals, trim}
use lumen.Core.Catalog.State.{Catalog, Entry, modify, bind_done}
use lumen.Core.Catalog.Store.{persist, commit_entry, commit_each, commit_all}
use lumen.Core.Catalog.Steps.{with_index_done, lift_then}
use lumen.Core.Catalog.Committed.{get_found}
use lumen.Core.Catalog.Writes.{checkpoint}

module _ {json : JsonApi} (tantivy : TantivyApi json) where
  open tantivy use {Index}

  -- The index under a uuid goes on from another one: it has its schema and its pending documents.
  abbrev pub Continues : Index → ℕ → BTreeMap ℕ Index → Type 0
  Continues j uuid dirs =
      (k : Index) × (get uuid dirs ≡ some k)
      × (tantivy.pending k ≡ tantivy.pending j)
      × (tantivy.schema k ≡ tantivy.schema j)

  -- ... and its readers see them.
  abbrev pub Shows : Index → ℕ → BTreeMap ℕ Index → Type 0
  Shows j uuid dirs =
      (k : Index) × (get uuid dirs ≡ some k)
      × (tantivy.searchable k ≡ tantivy.pending j)
      × (tantivy.pending k ≡ tantivy.pending j)
      × (tantivy.schema k ≡ tantivy.schema j)

  ok_of_done :
      (r : Fallible (Unit {0}) × Index) (k : Index)
      → ◌≡◌ {A = Outcome (Unit {0}) × Index} (outcome r.0, r.1) (done tt, k)
      → r ≡ (ok tt, k)
  ok_of_done (ok u, k') k h = ap (λ x. (ok tt, x)) (ap (λ x. x.1) h)
  ok_of_done (err e, k') k h = absurd (failed_done e tt (ap (λ x. x.0) h))

  Shows-Continues :
      (j : Index) (u : ℕ) (dirs : BTreeMap ℕ Index) → Shows j u dirs → Continues j u dirs
  Shows-Continues j u dirs (k, at, shown, pending, schema) = (k, at, pending, schema)

  module _ (mark : LogMark) (u : ℕ) (i k : Index) (dirs : BTreeMap ℕ Index)
      (at : get u dirs ≡ some i) (e : commit tantivy mark i ≡ (ok tt, k)) where
    insert-Shows : (j : Index) → Continues j u dirs → Shows j u (insert u k dirs)
    unfolding commit
    insert-Shows j (x, found, pending, schema) =
        let same : i ≡ x = some_inj i x (sym at ∙ found) in
        let before : tantivy.pending i ≡ tantivy.pending j = ap tantivy.pending same ∙ pending in
        (
          k,
          get-insert_self u k dirs,
          tantivy.searchable_commit (tantivy.mark_to_string mark) i k e ∙ before,
          tantivy.pending_commit (tantivy.mark_to_string mark) i k e ∙ before,
          schema-commit tantivy mark i k e ∙ ap tantivy.schema same ∙ schema,
        )

    insert-Continues : (v : ℕ) (j : Index) → Continues j v dirs → Continues j v (insert u k dirs)
    insert-Continues v j h = elim (ℕ_discrete u v) [
      | yes q ↦
          subst (λ w. Continues j w (insert u k dirs)) q
            (Shows-Continues j u (insert u k dirs)
              (insert-Shows j (subst (λ w. Continues j w dirs) (sym q) h)))
      | no ne ↦ (h.0, get-insert_ne u v k dirs ne ∙ h.1, h.2, h.3)
    ]

    insert-Shows_kept : (v : ℕ) (j : Index) → Shows j v dirs → Shows j v (insert u k dirs)
    insert-Shows_kept v j h = elim (ℕ_discrete u v) [
      | yes q ↦
          subst (λ w. Shows j w (insert u k dirs)) q
            (insert-Shows j (subst (λ w. Continues j w dirs) (sym q) (Shows-Continues j v dirs h)))
      | no ne ↦ (h.0, get-insert_ne u v k dirs ne ∙ h.1, h.2, h.3, h.4)
    ]

  -- What the commit of an entry does to the directories.
  commit_entry_done :
      (mark : LogMark) (entry : Entry) (c c' : Catalog Index)
      → commit_entry tantivy mark entry c ≡ (done tt, c')
      → (i k : Index) × (get entry.uuid c.dirs ≡ some i)
        × (commit tantivy mark i ≡ (ok tt, k))
        × (record c { dirs = insert entry.uuid k c.dirs } ≡ c')
  unfolding commit_entry
  commit_entry_done mark entry c c' h =
      let (i, k, at, ran, same) = with_index_done entry.uuid _ tt c c' h in
      (i, k, at, ok_of_done (commit tantivy mark i) k ran, same)

  -- Committing every entry keeps what goes on and what is shown, and keeps the collections.
  commit_each-kept :
      (mark : LogMark) (entries : BTreeMap Text Entry) (c c' : Catalog Index)
      → commit_each tantivy mark entries c ≡ (done tt, c')
      → (c'.collections ≡ c.collections)
        × ((v : ℕ) (j : Index) → Shows j v c.dirs → Shows j v c'.dirs)
  unfolding commit_each
  commit_each-kept mark [] c c' h =
      (ap (λ r. r.1.collections) (sym h), λ v j s. subst (Shows j v) (ap (λ r. r.1.dirs) h) s)
  commit_each-kept mark ((n, entry) ∷ rest) c c' h =
      let (_, d, e, g) =
        bind_done (commit_entry tantivy mark entry) (λ _. commit_each tantivy mark rest) c tt c'
          h in
      let (i, k, at, ran, same) = commit_entry_done mark entry c d e in
      let (later, kept) = commit_each-kept mark rest d c' g in
      (
        later ∙ ap (λ x. x.collections) (sym same),
        λ v j s. kept v j (
            subst (λ (x : Catalog Index). Shows j v x.dirs) same
              (insert-Shows_kept mark entry.uuid i k c.dirs at ran v j s)),
      )

  -- The index of an entry that is committed with the others shows what was pending.
  commit_each-Shows :
      (mark : LogMark) (entries : BTreeMap Text Entry) (name : Text) (entry : Entry) (j : Index)
      (c c' : Catalog Index)
      → get name entries ≡ some entry
      → Continues j entry.uuid c.dirs
      → commit_each tantivy mark entries c ≡ (done tt, c')
      → Shows j entry.uuid c'.dirs
  unfolding commit_each get
  commit_each-Shows mark [] name entry j c c' found cont h = ground arith
  commit_each-Shows mark ((n, first) ∷ rest) name entry j c c' found cont h =
      let (_, d, e, g) =
        bind_done (commit_entry tantivy mark first) (λ _. commit_each tantivy mark rest) c tt c'
          h in
      let (i, k, at, ran, same) = commit_entry_done mark first c d e in
      let (later, kept) = commit_each-kept mark rest d c' g in
      elim (get_found name n first entry rest found) [
        | inl q ↦ kept entry.uuid j (
            subst (λ (x : Catalog Index). Shows j entry.uuid x.dirs) same
              (subst (λ (x : Entry). Shows j x.uuid (insert first.uuid k c.dirs)) q
                (insert-Shows mark first.uuid i k c.dirs at ran j
                  (subst (λ (x : Entry). Continues j x.uuid c.dirs) (sym q) cont))))
        | inr q ↦
            commit_each-Shows mark rest name entry j d c' q
              (subst (λ (x : Catalog Index). Continues j entry.uuid x.dirs) same
                (insert-Continues mark first.uuid i k c.dirs at ran entry.uuid j cont))
              g
      ]

  module _ (ext : Externals) where
    commit_all-Shows :
        (mark : LogMark) (name : Text) (entry : Entry) (j : Index) (c c' : Catalog Index)
        → get name c.collections ≡ some entry
        → get entry.uuid c.dirs ≡ some j
        → commit_all tantivy ext mark c ≡ (done tt, c')
        → (get name c'.collections ≡ some entry) × Shows j entry.uuid c'.dirs
    unfolding commit_all persist
    commit_all-Shows mark name entry j c c' found at h =
        let (_, d, e, g) =
          bind_done (commit_each tantivy mark c.collections) (λ _. modify (persist ext mark.index))
            c tt c' h in
        let same : persist ext mark.index d ≡ c' = ap (λ r. r.1) g in
        (
          ap (λ x. get name x.collections) (sym same)
              ∙ ap (get name) (commit_each-kept mark c.collections c d e).0
              ∙ found,
          subst (λ (x : Catalog Index). Shows j entry.uuid x.dirs) same
              (commit_each-Shows mark c.collections name entry j c d found (j, at, refl, refl) e),
        )

    -- A checkpoint keeps every collection, and its readers then see what was pending.
    pub checkpoint-Shows :
        (name : Text) (entry : Entry) (j : Index) (c c' : Catalog Index)
        → get name c.collections ≡ some entry
        → get entry.uuid c.dirs ≡ some j
        → checkpoint tantivy ext c ≡ (done tt, c')
        → (get name c'.collections ≡ some entry) × Shows j entry.uuid c'.dirs
    unfolding checkpoint
    checkpoint-Shows name entry j c c' found at h =
        let mark : LogMark = record { term = 0; node = 0; index = c.seq } in
        let (_, d, e, g) = bind_done (commit_all tantivy ext mark) _ c tt c' h in
        lift_then (trim c.seq d.wal) _ tt d c' g (λ wal trimmed h'.
          let same : record d { wal = wal } ≡ c' = ap (λ r. r.1) h' in
          let (found', shown) = commit_all-Shows mark name entry j c d found at e in
          (
            ap (λ x. get name x.collections) (sym same) ∙ found',
            subst (λ (x : Catalog Index). Shows j entry.uuid x.dirs) same shown,
          ))
