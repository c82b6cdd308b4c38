-- ===== src/Core/Catalog/Snapshots/Restored.antt =====
-- The catalog after the installation of an archive (`sweep_orphans` and the whole of
-- `install_snapshot` in crates/core/src/catalog.rs).
use lumen.Base.{
  ℕ, Text, text_ord, nat_ord, true, some, List, [], ◌∷◌, map, All, any, ◌==◌, BTreeMap, IsSorted,
  Joins-nil, Result-cases, Result, ok, err, err_ok, ok_inj, inl, inr, ◌≡◌, refl, sym, ap, ◌∙◌,
  subst,
}
use lumen.Core.Error.{Error, done}
use lumen.Core.Json.{JsonApi}
use lumen.Core.Log.Frame.{Bytes}
use lumen.Core.Tantivy.{TantivyApi}
use lumen.Core.Wal.{Externals, DecodesSnapshot}
use lumen.Core.Catalog.State.{Catalog, Entry}
use lumen.Core.Catalog.Store.{snapshot_proto, sweep_orphans, sweep_dirs, live_uuids}
use lumen.Core.Catalog.Swept.{sweep_dirs-get, live_uuids-All}
use lumen.Core.Catalog.Reopened.{IsSound, wire_entry, sweep_dirs-collections}
use lumen.Proto.Command as Proto
use lumen.Core.Catalog.Snapshots.{
  Files, Directories, Tar, Archive, Archiving, UnpacksBack, archive_of, read_archived,
  build_snapshot, archive_each,
}
use lumen.Core.Catalog.Snapshots.Archived.{IsStaged, archive_each-IsStaged}
use lumen.Core.Catalog.Snapshots.Installed.{AreDistinct, IsRestored, place_each-wire}
use lumen.Core.Catalog.Snapshots.Rebuilding.{rebuild_each-wire}
use lumen.Core.Catalog.Snapshots.Install.{rebuild, install_archive, install_snapshot}

module _ {json : JsonApi} (tantivy : TantivyApi json) (directories : Directories tantivy)
    (ext : Externals) where
  open tantivy use {Index}

  sweep_dirs-IsRestored :
      (orig : BTreeMap ℕ Index) (live : List ℕ) (high : ℕ) (c : Catalog Index)
      (es : BTreeMap Text Entry)
      → All (λ (e : Text × Entry). any (λ u. u == e.1.uuid) live ≡ true) es
      → All (λ (e : Text × Entry). IsRestored tantivy directories ext orig c.dirs e.1.uuid) es
      → All
          (λ (e : Text × Entry).
            IsRestored tantivy directories ext orig (sweep_dirs live high c.dirs c).dirs e.1.uuid)
          es
  unfolding IsRestored
  sweep_dirs-IsRestored orig live high c [] l h = tt
  sweep_dirs-IsRestored orig live high c (e ∷ es) l h = (
    (h.0.0, h.0.1, h.0.2, sweep_dirs-get live high e.1.uuid c.dirs c l.0 ∙ h.0.3, h.0.4),
    sweep_dirs-IsRestored orig live high c es l.1 h.1,
  )

  map_kept :
      (P Q : ℕ → Type 0)
      → ((v : ℕ) → P v → Q v)
      → (es : BTreeMap Text Entry) → All (λ (e : Text × Entry). P e.1.uuid) es
      → All (λ (e : Text × Entry). Q e.1.uuid) es
  map_kept P Q f [] h = tt
  map_kept P Q f (e ∷ es) h = (f e.1.uuid h.0, map_kept P Q f es h.1)

  module _ (reopens : (i : Index) → (j : Index) × (tantivy.reopen i ≡ ok j)) where
    -- An archive of staged collections is installed with them.
    install_archive-wire :
        (orig : BTreeMap ℕ Index) (es : BTreeMap Text Entry) (seq : ℕ) (staging : BTreeMap ℕ Files)
        (c : Catalog Index)
        → IsSorted es
        → All IsSound es
        → AreDistinct es
        → All (λ (e : Text × Entry). IsStaged tantivy directories orig staging e.1.uuid) es
        → DecodesSnapshot ext
            (record { applied_seq = seq; entries = map (wire_entry tantivy ext) es })
        → (c' : Catalog Index) × (install_archive tantivy directories ext
              (record {
                catalog = some (
                    ext.encode_snapshot
                      (record { applied_seq = seq; entries = map (wire_entry tantivy ext) es }));
                dirs = staging;
              })
              c
            ≡ (done tt, c'))
          × (c'.collections ≡ es)
          × All (λ (e : Text × Entry). IsRestored tantivy directories ext orig c'.dirs e.1.uuid) es
    unfolding install_archive rebuild sweep_orphans read_archived IsRestored DecodesSnapshot
    install_archive-wire orig es seq staging c sorted sound distinct staged decodes =
        let (c1, placed, all, kept) =
          place_each-wire tantivy directories ext orig es staging c staged distinct in
        let snapshot : Proto.CatalogSnapshot = record {
          applied_seq = seq;
          entries = map (wire_entry tantivy ext) es;
        } in
        let (rebuilt, c2, ran, same, kept') =
          rebuild_each-wire tantivy directories ext orig reopens es
            (record { collections = []; max_seq = seq })
            (record c1 { snapshot = some (ext.encode_snapshot snapshot) }) sorted (Joins-nil es)
            sound all in
        let c3 : Catalog Index = record c2 {
          collections = rebuilt.collections;
          seq = rebuilt.max_seq;
        } in
        let all' =
          map_kept (IsRestored tantivy directories ext orig c1.dirs)
            (IsRestored tantivy directories ext orig c2.dirs) kept' es all in
        let live =
          live_uuids-All (live_uuids rebuilt.collections) es
            (λ v found. subst (λ x. any (λ u. u == v) (live_uuids x) ≡ true) (sym same) found) in
        (
          sweep_dirs (live_uuids c3.collections) seq c3.dirs c3,
          rw (decodes, install_archive, placed, ran) refl,
          sweep_dirs-collections tantivy ext reopens (live_uuids c3.collections) seq c3.dirs c3
              ∙ same,
          sweep_dirs-IsRestored orig (live_uuids rebuilt.collections) seq c3 es live all',
        )

    -- A snapshot that one catalog built is installed by any other one, whatever that one had: the
    -- collections are then those of the first catalog, each with an index that has the last commit
    -- of the first one's, and the snapshot is the current one of both, which is all that changes in
    -- the first one. The first catalog's mappings are valid, no two of its collections have the same
    -- uuid, every directory can be opened, the archive's file unpacks to the archive, and prost
    -- decodes its snapshot.
    pub install_snapshot-build_snapshot :
        (tar : Tar) (a a' b : Archiving Index) (file : Bytes)
        → IsSorted a.catalog.collections
        → All IsSound a.catalog.collections
        → AreDistinct a.catalog.collections
        → ((staging : BTreeMap ℕ Files)
            → archive_each tantivy directories a.catalog.collections [] a.catalog.dirs ≡ ok staging
            → UnpacksBack tar (archive_of tantivy directories ext a.catalog staging))
        → DecodesSnapshot ext (snapshot_proto ext a.catalog.seq a.catalog)
        → build_snapshot tantivy directories tar ext a ≡ (ok file, a')
        → (b' : Archiving Index) × (install_snapshot tantivy directories ext tar file b
            ≡ (done tt, b'))
          × (b'.catalog.collections ≡ a.catalog.collections)
          × All
              (λ (e : Text × Entry).
                IsRestored tantivy directories ext a.catalog.dirs b'.catalog.dirs e.1.uuid)
              a.catalog.collections
          × (b'.current ≡ some file)
          × (a' ≡ record a { current = some file })
    unfolding build_snapshot install_snapshot snapshot_proto archive_of UnpacksBack
    install_snapshot-build_snapshot tar a a' b file sorted sound distinct restores decodes h =
        elim (Result-cases
          (archive_each tantivy directories a.catalog.collections [] a.catalog.dirs)) [
            | inl (x, e) ↦
                let bad : ◌≡◌ {A = Result Error Bytes × Archiving Index} (err x, a) (ok file, a') =
                  rw (e, build_snapshot) at h in
                absurd (err_ok x file (ap (λ r. r.0) bad))
            | inr (staging, e) ↦
                let archive : Archive = archive_of tantivy directories ext a.catalog staging in
                let good : ◌≡◌ {A = Result Error Bytes × Archiving Index}
                    (ok (tar.pack archive), record a { current = some (tar.pack archive) })
                    (ok file, a') =
                  rw (e, build_snapshot) at h in
                let packed : tar.pack archive ≡ file =
                  ok_inj (tar.pack archive) file (ap (λ r. r.0) good) in
                let unpacks : tar.unpack file ≡ ok archive =
                  ap tar.unpack (sym packed) ∙ restores staging e in
                let (all, kept) =
                  archive_each-IsStaged tantivy directories a.catalog.collections [] staging
                    a.catalog.dirs e in
                let (c', ran, same, restored) =
                  install_archive-wire a.catalog.dirs a.catalog.collections a.catalog.seq staging
                    b.catalog sorted sound distinct all decodes in
                (
                  record { catalog = c'; current = some file },
                  rw (unpacks, install_snapshot, ran) refl,
                  same,
                  restored,
                  refl,
                  ap (λ r. r.1) (sym good) ∙ ap (λ x. record a { current = some x }) packed,
                )
          ]
