-- ===== src/Core/Log.antt =====
-- The segmented log, crates/core/src/log.rs. A directory is the map from the number in a segment
-- file's name to the file's bytes; `crc32c` of the crate of that name is a parameter.
pub mod Frame
pub mod Removal
pub mod Segments
pub mod Reading
pub mod Ranges
pub mod Appending
pub mod Rotation
pub mod Durability
pub mod Recovery
pub mod Crashes
use lumen.Base.{
  ℕ, ◌+◌, ◌-◌, ◌<◌, u32_mod, Bool, true, false, not, ◌||◌, Option, none, some, List, [], ◌∷◌, ◌++◌,
  map, length, take, drop, retain, any, sort, ltb, leb, ◌==◌, if◌then◌else◌, BTreeMap, get, insert,
  remove, nat_ord, Result, ok, err, ok_or, ◌>>=◌,
}
use lumen.Core.Error.{Error, recovery, io, not_found, unexpected_eof, record_exceeds_u32, Fallible}
use Frame.{Bytes, frame, scan_segment, header_bytes}

pub record RecordLoc : Type 0 where
  pub segment_start : ℕ
  pub payload_offset : ℕ
  pub len : ℕ

-- The handle `file` is open on the file of `segment_path(start)`.
pub record Active : Type 0 where
  pub start : ℕ
  pub bytes : ℕ

abbrev pub Disk : Type 0
Disk = BTreeMap ℕ Bytes

abbrev pub Records : Type 0
Records = BTreeMap ℕ RecordLoc

pub record SegmentedLog : Type 0 where
  pub disk : Disk
  pub segment_max_bytes : ℕ
  pub starts : List ℕ
  pub records : Records
  pub active : Option Active

-- `fs::read`, `File::open`.
unfoldable pub read_file : ℕ → Disk → Fallible Bytes
unfolding get
read_file start disk = ok_or (get start disk) (io not_found)

-- `write_all` on a handle open for append. A handle on a deleted file writes to no directory entry.
unfoldable pub append_file : ℕ → Bytes → Disk → Disk
unfolding get insert
append_file start bytes disk = elim (get start disk) [
  | none ↦ disk
  | some old ↦ insert start (old ++ bytes) disk
]

-- `set_len` to at most the length.
unfoldable pub set_len : ℕ → ℕ → Disk → Disk
unfolding get insert
set_len start len disk = elim (get start disk) [
  | none ↦ disk
  | some old ↦ insert start (take len old) disk
]

-- `OpenOptions::new().create(true).append(true)` keeps the bytes of a file that is there.
unfoldable pub create_file : ℕ → Disk → Disk
unfolding get insert
create_file start disk = elim (get start disk) [ none ↦ insert start [] disk | some old ↦ disk ]

unfoldable pub remove_file : ℕ → Disk → Fallible Disk
unfolding get remove
remove_file start disk = elim (get start disk) [
  | none ↦ err (io not_found)
  | some old ↦ ok (remove start disk)
]

-- The insertions of one segment's locations into the index.
unfoldable pub index_locs : ℕ → List (ℕ × ℕ × ℕ) → Records → Records
unfolding insert
index_locs start [] records = records
index_locs start ((index, payload_offset, len) ∷ locs) records = index_locs start locs (
    insert index (record { segment_start = start; payload_offset = payload_offset; len = len })
      records)

pub record Opened : Type 0 where
  pub disk : Disk
  pub starts : List ℕ
  pub records : Records
  pub active : Option Active

abbrev pub is_empty {ℓ} : {A : Type ℓ} → List A → Bool
is_empty [] = true
is_empty (x ∷ xs) = false

module _ (crc32c : Bytes → ℕ) where
  -- The loop of `open_with_segment_max` over the starts. It ends at the first torn segment, whose
  -- start is the last to be kept.
  unfoldable pub open_segments : List ℕ → Disk → Records → Option Active → Fallible Opened
  unfolding read_file index_locs set_len scan_segment
  open_segments [] disk records active =
      ok (record { disk = disk; starts = []; records = records; active = active })
  open_segments (start ∷ rest) disk records active = do
    bytes ← read_file start disk
    let scanned = scan_segment crc32c start bytes
    let records' = index_locs start scanned.0 records
    if ltb scanned.1 (length bytes)
        then ok (record {
          disk = set_len start scanned.1 disk;
          starts = start ∷ [];
          records = records';
          active = some (record { start = start; bytes = scanned.1 });
        })
        else (do
          opened ← open_segments rest disk records' (
              if is_empty rest
              then some (record { start = start; bytes = length bytes })
              else active)
          ok (record opened { starts = start ∷ opened.starts }))

  -- `segment_starts` lists the directory in ascending order.
  unfoldable pub open_with_segment_max : Disk → ℕ → Fallible SegmentedLog
  unfolding open_segments
  open_with_segment_max disk segment_max_bytes = do
    opened ← open_segments (map (λ e. e.0) disk) disk [] none
    ok (record {
      disk = opened.disk;
      segment_max_bytes = segment_max_bytes;
      starts = opened.starts;
      records = opened.records;
      active = opened.active;
    })

unfoldable pub needs_rotation : SegmentedLog → Bool
needs_rotation log = elim log.active [
  | none ↦ true
  | some active ↦ leb log.segment_max_bytes active.bytes
]

unfoldable pub rotate : ℕ → SegmentedLog → SegmentedLog
unfolding create_file any sort
rotate start log = record log {
  disk = create_file start log.disk;
  active = some (record { start = start; bytes = 0 });
  starts = if any (λ s. s == start) log.starts then log.starts else sort (log.starts ++ start ∷ []);
}

module _ (crc32c : Bytes → ℕ) where
  -- The part of `append` after the rotation; the active segment is there.
  unfoldable pub write_frame : ℕ → Bytes → Active → SegmentedLog → SegmentedLog
  unfolding append_file insert frame
  write_frame index payload active log = record log {
    disk = append_file active.start (frame crc32c payload) log.disk;
    active = some (record active { bytes = active.bytes + length (frame crc32c payload) });
    records =
        insert index
          (record {
            segment_start = active.start;
            payload_offset = active.bytes + header_bytes;
            len = length payload;
          })
          log.records;
  }

  -- The release build, without the `debug_assert` on the index. After the rotation there is an active
  -- segment: the case without one, which the source rules out by an `expect`, is never reached.
  unfoldable pub append : ℕ → Bytes → SegmentedLog → Fallible SegmentedLog
  unfolding needs_rotation rotate write_frame
  append index payload log =
      if ltb (length payload) u32_mod
      then (let log' = if needs_rotation log then rotate index log else log in
          elim log'.active [
            | none ↦ ok log'
            | some active ↦ ok (write_frame index payload active log')
          ])
      else err (recovery record_exceeds_u32)

-- `read_exact_at`.
unfoldable pub read_exact_at : Bytes → ℕ → ℕ → Fallible Bytes
read_exact_at file len offset =
    if leb (offset + len) (length file)
    then ok (take len (drop offset file))
    else err (io unexpected_eof)

-- A file is opened once for all its records; no file changes in between.
unfoldable pub read_locs : Disk → Records → Fallible (List (ℕ × Bytes))
unfolding read_file read_exact_at
read_locs disk [] = ok []
read_locs disk ((index, loc) ∷ locs) = do
  file ← read_file loc.segment_start disk
  buf ← read_exact_at file loc.len loc.payload_offset
  out ← read_locs disk locs
  ok ((index, buf) ∷ out)

unfoldable pub read_all : SegmentedLog → Fallible (List (ℕ × Bytes))
unfolding read_locs
read_all log = read_locs log.disk log.records

-- `records.range(from..to)`; `none` is the panic of `range` on `from > to`.
unfoldable pub range : ℕ → ℕ → Records → Option Records
unfolding retain
range from to records =
    if ltb to from
    then none
    else some (retain (λ e. if leb from e.0 then ltb e.0 to else false) records)

unfoldable pub read_range : ℕ → ℕ → SegmentedLog → Option (Fallible (List (ℕ × Bytes)))
unfolding range read_locs
read_range from to log = elim (range from to log.records) [
  | none ↦ none
  | some records ↦ some (read_locs log.disk records)
]

unfoldable pub last_index : Records → Option ℕ
last_index [] = none
last_index ((index, loc) ∷ []) = some index
last_index (e ∷ (e' ∷ records)) = last_index (e' ∷ records)
