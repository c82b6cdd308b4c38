-- ===== src/Core/Catalog/Snapshots/Marks.antt =====
-- The committed marks of a catalog that was restored (`min_committed_mark` of
-- crates/core/src/catalog.rs).
use lumen.Base.{
  Text, nat_ord, Option, none, [], ◌∷◌, All, BTreeMap, Result-cases, inl, inr, ◌≡◌, refl, sym, ap,
  ◌∙◌,
}
use lumen.Core.Error.{Outcome, done, failed, panicked}
use lumen.Core.Json.{JsonApi}
use lumen.Core.Tantivy.{TantivyApi, LogMark, or_default}
use lumen.Core.Collection.{committed_mark}
use lumen.Core.Collection.Commits.{same_mark}
use lumen.Core.Wal.{Externals}
use lumen.Core.Catalog.State.{Catalog, Entry}
use lumen.Core.Catalog.Store.{mark_of, min_mark, min_marks, min_committed_mark}
use lumen.Core.Catalog.Snapshots.{Directories}
use lumen.Core.Catalog.Snapshots.Installed.{IsRestored}

module _ {json : JsonApi} (tantivy : TantivyApi json) (directories : Directories tantivy)
    (ext : Externals) where
  open tantivy use {Index}

  -- An index that is restored has the mark of the first one; asking for it changes nothing.
  mark_of-IsRestored :
      (entry : Entry) (c c' : Catalog Index)
      → IsRestored tantivy directories ext c.dirs c'.dirs entry.uuid
      → (o : Outcome LogMark) × (mark_of tantivy entry c ≡ (o, c))
        × (mark_of tantivy entry c' ≡ (o, c'))
  unfolding mark_of IsRestored
  mark_of-IsRestored entry c c' (i, j, at, at', commit) =
      elim (Result-cases (committed_mark tantivy i)) [
        | inl (e, q) ↦ (
          failed e,
          rw (at, mark_of, q) refl,
          rw (at', mark_of, same_mark tantivy i j commit.payload ∙ q) refl,
        )
        | inr (m, q) ↦ (
          done (or_default m),
          rw (at, mark_of, q) refl,
          rw (at', mark_of, same_mark tantivy i j commit.payload ∙ q) refl,
        )
      ]

  min_marks-IsRestored :
      (es : BTreeMap Text Entry) (min : Option LogMark) (c c' : Catalog Index)
      → All (λ (e : Text × Entry). IsRestored tantivy directories ext c.dirs c'.dirs e.1.uuid) es
      → (min_marks tantivy es min c).0 ≡ (min_marks tantivy es min c').0
  unfolding min_marks
  min_marks-IsRestored [] min c c' h = refl
  min_marks-IsRestored ((n, e) ∷ es) min c c' h =
      let (o, here, there) = mark_of-IsRestored e c c' h.0 in
      step o here there (λ m. min_marks-IsRestored es (min_mark min m) c c' h.1)
    where
      step :
          (o : Outcome LogMark)
          → mark_of tantivy e c ≡ (o, c)
          → mark_of tantivy e c' ≡ (o, c')
          → ((m : LogMark)
              → (min_marks tantivy es (min_mark min m) c).0
                ≡ (min_marks tantivy es (min_mark min m) c').0)
          → (min_marks tantivy ((n, e) ∷ es) min c).0 ≡ (min_marks tantivy ((n, e) ∷ es) min c').0
      step (done m) q q' later = rw (q, min_marks, q') (later m)
      step (failed x) q q' later = rw (q, min_marks, q') refl
      step panicked q q' later = rw (q, min_marks, q') refl

  -- A catalog with the same collections, all restored, has the same least committed mark.
  pub min_committed_mark-IsRestored :
      (c c' : Catalog Index)
      → c'.collections ≡ c.collections
      → All
          (λ (e : Text × Entry). IsRestored tantivy directories ext c.dirs c'.dirs e.1.uuid)
          c.collections
      → (min_committed_mark tantivy c).0 ≡ (min_committed_mark tantivy c').0
  unfolding min_committed_mark
  min_committed_mark-IsRestored c c' same h =
      min_marks-IsRestored c.collections none c c' h
      ∙ ap (λ es. (min_marks tantivy es none c').0) (sym same)
