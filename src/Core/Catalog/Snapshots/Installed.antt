-- ===== src/Core/Catalog/Snapshots/Installed.antt =====
-- An archive that one catalog built and another one installs
-- (`build_snapshot` and `install_snapshot` of crates/core/src/catalog.rs).
use lumen.Base.{
  ℕ, Text, text_ord, nat_ord, some, [], ◌∷◌, map, All, BTreeMap, get, insert, remove,
  get-insert_self, get-insert_ne, get-remove_ne, ◌≡◌, ◌≢◌, refl, ◌∙◌, subst,
}
use native.Mathlib.Decide.{ℕ_discrete}
use lumen.Core.Error.{done}
use lumen.Core.Json.{JsonApi}
use lumen.Core.Tantivy.{TantivyApi}
use lumen.Core.Wal.{Externals}
use lumen.Core.Catalog.State.{Catalog, Entry}
use lumen.Core.Catalog.Reopened.{wire_entry}
use lumen.Core.Catalog.Snapshots.{Files, Directories}
use lumen.Core.Catalog.Snapshots.Archived.{HasCommit, IsStaged}
use lumen.Core.Catalog.Snapshots.Install.{set_aside, put_in_place, place_each}

-- No two collections have the same uuid.
abbrev pub AreDistinct : BTreeMap Text Entry → Type 0
AreDistinct [] = Unit
AreDistinct (e ∷ es) = All (λ (f : Text × Entry). e.1.uuid ≢ f.1.uuid) es × AreDistinct es

module _ {json : JsonApi} (tantivy : TantivyApi json) (directories : Directories tantivy)
    (ext : Externals) where
  open tantivy use {Index}

  -- Under the uuid is an index with the commit of the one that was there in another catalog.
  unfoldable pub IsRestored : BTreeMap ℕ Index → BTreeMap ℕ Index → ℕ → Type 0
  IsRestored orig dirs uuid =
      (i j : Index) × (get uuid orig ≡ some i)
      × (get uuid dirs ≡ some j)
      × HasCommit tantivy directories i j

  module _ (orig : BTreeMap ℕ Index) where
    remove-IsStaged :
        (u : ℕ) (staging : BTreeMap ℕ Files) (es : BTreeMap Text Entry)
        → All (λ (f : Text × Entry). u ≢ f.1.uuid) es
        → All (λ (e : Text × Entry). IsStaged tantivy directories orig staging e.1.uuid) es
        → All
            (λ (e : Text × Entry). IsStaged tantivy directories orig (remove u staging) e.1.uuid)
            es
    unfolding IsStaged
    remove-IsStaged u staging [] other staged = tt
    remove-IsStaged u staging (e ∷ es) other staged =
        let (i, files, at, there, commit) = staged.0 in
        (
          (i, files, at, get-remove_ne u e.1.uuid staging other.0 ∙ there, commit),
          remove-IsStaged u staging es other.1 staged.1,
        )

    pub place_each-wire :
        (es : BTreeMap Text Entry) (staging : BTreeMap ℕ Files) (c : Catalog Index)
        → All (λ (e : Text × Entry). IsStaged tantivy directories orig staging e.1.uuid) es
        → AreDistinct es
        → (c' : Catalog Index) × (place_each tantivy directories ext
              (map (wire_entry tantivy ext) es)
              staging
              c
            ≡ (done tt, c'))
          × All (λ (e : Text × Entry). IsRestored orig c'.dirs e.1.uuid) es
          × ((v : ℕ) → IsRestored orig c.dirs v → IsRestored orig c'.dirs v)
    unfolding place_each IsStaged IsRestored set_aside put_in_place
    place_each-wire [] staging c staged distinct = (c, refl, tt, λ v r. r)
    place_each-wire (e ∷ es) staging c staged distinct =
        let (i, files, at, there, commit) = staged.0 in
        let u = e.1.uuid in
        let j = directories.dir_of files in
        let c1 : Catalog Index = record c { dirs = insert u j (remove u c.dirs) } in
        let kept : (v : ℕ) → IsRestored orig c.dirs v → IsRestored orig c1.dirs v = λ v r.
          elim (ℕ_discrete u v) [
            | yes q ↦
                subst (IsRestored orig c1.dirs) q
                  (i, j, at, get-insert_self u j (remove u c.dirs), commit)
            | no ne ↦ (
              r.0,
              r.1,
              r.2,
              get-insert_ne u v j (remove u c.dirs) ne ∙ get-remove_ne u v c.dirs ne ∙ r.3,
              r.4,
            )
          ] in
        let (c', ran, all, keep) =
          place_each-wire es (remove u staging) c1
            (remove-IsStaged u staging es distinct.0 staged.1) distinct.1 in
        (
          c',
          rw (ext.uuid_round_trip u, place_each, there) ran,
          (keep u (i, j, at, get-insert_self u j (remove u c.dirs), commit), all),
          λ v r. keep v (kept v r),
        )
