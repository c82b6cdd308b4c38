-- ===== src/Core/Catalog/Snapshots/Install.antt =====
-- The installation of an archive, `install_snapshot` and `rebuild` of crates/core/src/catalog.rs.
-- The handles on the directories of a catalog whose installation failed halfway are not modelled.
use lumen.Base.{
  ℕ, max, Text, text_ord, text_cmp, nat_ord, some, List, [], ◌∷◌, BTreeMap, get, insert, remove,
  ok_or,
}
use lumen.Core.Error.{recovery, io, not_found, invalid_archive_uuid, archive_entry_without_mapping}
use lumen.Core.Json.{JsonApi}
use lumen.Core.Mapping.{mapping_try_from}
use lumen.Core.Log.Frame.{Bytes}
use lumen.Core.Tantivy.{TantivyApi}
use lumen.Core.Wal.{Externals}
use lumen.Core.Catalog.State.{Catalog, Entry, Action, pure, lift, gets, modify, ◌>>=◌, ◌>>◌}
use lumen.Core.Catalog.Store.{sweep_orphans}
use lumen.Core.Catalog.Snapshots.{Files, Directories, Tar, Archive, Archiving, read_archived}
use lumen.Proto.Command as Proto

-- What `rebuild` has of the new catalog so far.
pub record Rebuilt : Type 0 where
  pub collections : BTreeMap Text Entry
  pub max_seq : ℕ

module _ {json : JsonApi} (tantivy : TantivyApi json) (directories : Directories tantivy)
    (ext : Externals) where
  open tantivy use {Index}

  -- The first rename of a collection's turn: a directory that is there goes aside.
  unfoldable pub set_aside : ℕ → Catalog Index → Catalog Index
  unfolding remove
  set_aside uuid c = record c { dirs = remove uuid c.dirs }

  -- The second one: the staged directory takes its place.
  unfoldable pub put_in_place : ℕ → Files → Catalog Index → Catalog Index
  unfolding insert
  put_in_place uuid files c = record c { dirs = insert uuid (directories.dir_of files) c.dirs }

  -- The loop of `install_snapshot` over the entries.
  unfoldable pub place_each :
      List Proto.CatalogEntry → BTreeMap ℕ Files → Action (Catalog Index) (Unit {0})
  unfolding get remove set_aside put_in_place
  place_each [] staging = pure tt
  place_each (entry ∷ entries) staging = do
    uuid ← lift (ok_or (ext.parse_uuid entry.uuid) (recovery (invalid_archive_uuid entry.uuid)))
    modify (set_aside uuid)
    files ← lift (ok_or (get uuid staging) (io not_found))
    modify (put_in_place uuid files)
    place_each entries (remove uuid staging)

  -- The loop of `rebuild`.
  unfoldable pub rebuild_each : List Proto.CatalogEntry → Rebuilt → Action (Catalog Index) Rebuilt
  unfolding mapping_try_from get insert text_cmp
  rebuild_each [] rebuilt = pure rebuilt
  rebuild_each (entry ∷ entries) rebuilt = do
    uuid ← lift (ok_or (ext.parse_uuid entry.uuid) (recovery (invalid_archive_uuid entry.uuid)))
    message ←
        lift (ok_or entry.mapping (recovery (archive_entry_without_mapping (ext.uuid_text uuid))))
    mapping ← lift (mapping_try_from message)
    found ← gets (λ c. get uuid c.dirs)
    dir ← lift (ok_or found (io not_found))
    index ← lift (tantivy.reopen dir)
    modify (λ c. record c { dirs = insert uuid index c.dirs })
    rebuild_each entries (record {
      collections =
          insert entry.name
            (record { uuid = uuid; created_seq = entry.created_seq; mapping = mapping })
            rebuilt.collections;
      max_seq = max rebuilt.max_seq entry.created_seq;
    })

  unfoldable pub rebuild : Proto.CatalogSnapshot → Action (Catalog Index) (Unit {0})
  unfolding rebuild_each
  rebuild snapshot = do
    rebuilt ←
        rebuild_each snapshot.entries (record { collections = []; max_seq = snapshot.applied_seq })
    modify (λ c. record c { collections = rebuilt.collections; seq = rebuilt.max_seq })

  -- The part of `install_snapshot` that works on the catalog, from the unpacked archive.
  unfoldable pub install_archive : Archive → Action (Catalog Index) (Unit {0})
  unfolding read_archived place_each rebuild sweep_orphans
  install_archive archive = do
    snapshot ← lift (read_archived ext archive.catalog)
    place_each snapshot.entries archive.dirs
    modify (λ c. record c { snapshot = archive.catalog })
    rebuild snapshot
    modify (sweep_orphans snapshot.applied_seq)

  module _ (tar : Tar) where
    abbrev on_catalog : {A : Type 0} → Action (Catalog Index) A → Action (Archiving Index) A
    on_catalog m a = let (r, c) = m a.catalog in (r, record a { catalog = c })

    unfoldable pub install_snapshot : Bytes → Action (Archiving Index) (Unit {0})
    unfolding install_archive
    install_snapshot file = do
      archive ← lift (tar.unpack file)
      on_catalog (install_archive archive)
      modify (λ a. record a { current = some file })
