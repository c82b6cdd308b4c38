-- ===== src/Core/Catalog/Snapshots.antt =====
-- The archives of a catalog: `build_snapshot`, `install_snapshot` and what they call in
-- crates/core/src/catalog.rs, and `archive_into` of crates/core/src/collection.rs. Tantivy's files
-- and the tar format are parameters, and prost's decoding of the archive's `catalog.pb` is in what
-- the archive holds. The staging directories are values. Each call on the file system succeeds, but
-- for one on a file that is not there.
pub mod Install
pub mod Archived
pub mod Installed
pub mod Rebuilding
pub mod Restored
pub mod Marks
pub mod Crashed
use lumen.Base.{
  ℕ, Text, bytes, text_ord, text_cmp, nat_ord, Option, none, some, List, [], ◌∷◌, ◌++◌, BTreeMap,
  get, insert, ok, err, ok_or, Result, ◌>>=◌, ◌≡◌, All,
}
use lumen.Core.Error.{Fallible, recovery, io, not_found, corrupt_archive_snapshot}
use lumen.Core.Json.{JsonApi}
use lumen.Core.Log.Frame.{Bytes}
use lumen.Core.Tantivy.{TantivyApi}
use lumen.Core.Wal.{Externals}
use lumen.Core.Catalog.State.{Catalog, Entry}
use lumen.Core.Catalog.Store.{snapshot_proto}
use lumen.Proto.Command as Proto

-- The files of a directory.
abbrev pub Files : Type 0
Files = BTreeMap Text Bytes

abbrev pub meta_file : Text
meta_file = bytes "meta.json"

abbrev pub managed_file : Text
managed_file = bytes ".managed.json"

abbrev pub concat : List (List Text) → List Text
concat [] = []
concat (names ∷ rest) = names ++ concat rest

-- The files that an archive of an index has, for the files of its segments.
unfoldable pub listed : List (List Text) → List Text
listed segments = meta_file ∷ managed_file ∷ concat segments

-- Two directories have the same of the files of a list.
abbrev pub AreCopied : Files → Files → List Text → Type 0
AreCopied from to = All (λ name. get name to ≡ get name from)

-- The directory of a Tantivy index. A commit is what `meta.json` lists: a directory that has its
-- files is an index with that commit.
pub record Directories {json : JsonApi} (tantivy : TantivyApi json) : Type 1 where
  pub files : tantivy.Index → Files
  -- a directory that nothing has opened
  pub dir_of : Files → tantivy.Index
  -- `reader.reload`, and the files of each segment of `load_metas`
  pub reload : tantivy.Index → Fallible (Unit {0})
  pub load_metas : tantivy.Index → Fallible (List (List Text))
  pub searchable_copied :
      (i : tantivy.Index) (segments : List (List Text)) (copied : Files)
      → load_metas i ≡ ok segments
      → AreCopied (files i) copied (listed segments)
      → tantivy.searchable (dir_of copied) ≡ tantivy.searchable i
  pub payload_copied :
      (i : tantivy.Index) (segments : List (List Text)) (copied : Files)
      → load_metas i ≡ ok segments
      → AreCopied (files i) copied (listed segments)
      → tantivy.payload (dir_of copied) ≡ tantivy.payload i
  pub schema_copied :
      (i : tantivy.Index) (segments : List (List Text)) (copied : Files)
      → load_metas i ≡ ok segments
      → AreCopied (files i) copied (listed segments)
      → tantivy.schema (dir_of copied) ≡ tantivy.schema i

pub record Archive : Type 0 where
  -- the bytes of its `catalog.pb`
  pub catalog : Option Bytes
  pub dirs : BTreeMap ℕ Files

-- The tar crate.
pub record Tar : Type 0 where
  pub pack : Archive → Bytes
  pub unpack : Bytes → Fallible Archive

-- Unpacking the archive's file gives its tree back.
unfoldable pub UnpacksBack : Tar → Archive → Type 0
UnpacksBack tar archive = tar.unpack (tar.pack archive) ≡ ok archive

-- A catalog with the archive `current.tar` of its snapshots.
pub record Archiving (Index : Type 0) : Type 0 where
  pub catalog : Catalog Index
  pub current : Option Bytes

unfoldable pub copy_files : List Text → Files → Files → Files
unfolding get insert text_cmp
copy_files [] from dest = dest
copy_files (name ∷ names) from dest = elim (get name from) [
  | none ↦ copy_files names from dest
  | some content ↦ copy_files names from (insert name content dest)
]

unfoldable pub read_archived : Externals → Option Bytes → Fallible Proto.CatalogSnapshot
read_archived ext none = err (io not_found)
read_archived ext (some bytes) =
    ok_or (ext.decode_snapshot bytes) (recovery corrupt_archive_snapshot)

module _ {json : JsonApi} (tantivy : TantivyApi json) (directories : Directories tantivy) where
  open tantivy use {Index}

  unfoldable pub archive_into : Index → Fallible Files
  unfolding copy_files listed
  archive_into i = do
    reloaded ← directories.reload i
    segments ← directories.load_metas i
    ok (copy_files (listed segments) (directories.files i) [])

  -- The loop of `build_snapshot` over the collections, with what is staged so far.
  unfoldable pub archive_each :
      BTreeMap Text Entry → BTreeMap ℕ Files → BTreeMap ℕ Index → Fallible (BTreeMap ℕ Files)
  unfolding get insert archive_into
  archive_each [] staging dirs = ok staging
  archive_each ((name, entry) ∷ rest) staging dirs = do
    i ← ok_or (get entry.uuid dirs) (io not_found)
    files ← archive_into i
    archive_each rest (insert entry.uuid files staging) dirs

  -- The archive of a catalog with the directories that were staged.
  unfoldable pub archive_of : Externals → Catalog Index → BTreeMap ℕ Files → Archive
  unfolding snapshot_proto
  archive_of ext c staging = record {
    catalog = some (ext.encode_snapshot (snapshot_proto ext c.seq c));
    dirs = staging;
  }

  module _ (tar : Tar) (ext : Externals) where
    -- The archive is what its path reads as.
    unfoldable pub build_snapshot : Archiving Index → Fallible Bytes × Archiving Index
    unfolding archive_of archive_each
    build_snapshot a = elim (archive_each a.catalog.collections [] a.catalog.dirs) [
      | err e ↦ (err e, a)
      | ok staging ↦
          (let archive = tar.pack (archive_of ext a.catalog staging) in
            (ok archive, record a { current = some archive }))
    ]
