-- ===== src/Core/Log/Removal.antt =====
-- Removing records from either end of a segmented log: `truncate_from` and `purge_through` of
-- crates/core/src/log.rs.
use lumen.Base.{
  ℕ, ◌-◌, Bool, false, not, ◌||◌, Option, none, some, List, [], ◌∷◌, length, retain, any, ltb, leb,
  ◌==◌, if◌then◌else◌, get, nat_ord, ok, ◌>>=◌,
}
use lumen.Core.Error.{Fallible}
use lumen.Core.Log.Frame.{header_bytes}
use lumen.Core.Log.{RecordLoc, Active, Disk, SegmentedLog, read_file, set_len, remove_file}

unfoldable pub remove_files : List ℕ → Disk → Fallible Disk
unfolding remove_file
remove_files [] disk = ok disk
remove_files (start ∷ rest) disk = do disk' ← remove_file start disk; remove_files rest disk'

unfoldable pub last_start : List ℕ → Option ℕ
last_start [] = none
last_start (s ∷ []) = some s
last_start (s ∷ (t ∷ starts)) = last_start (t ∷ starts)

unfoldable pub reopen_active : SegmentedLog → Fallible SegmentedLog
unfolding last_start read_file
reopen_active log = elim (last_start log.starts) [
  | none ↦ ok (record log { active = none })
  | some start ↦ (do
    bytes ← read_file start log.disk
    ok (record log { active = some (record { start = start; bytes = length bytes }) }))
]

-- The segment that holds `index`, cut before its frame.
unfoldable pub cut_segment : ℕ → Option RecordLoc → Disk → Fallible Disk
unfolding read_file set_len
cut_segment index none disk = ok disk
cut_segment index (some loc) disk =
    if ltb loc.segment_start index
    then (do
      file ← read_file loc.segment_start disk
      ok (set_len loc.segment_start (loc.payload_offset - header_bytes) disk))
    else ok disk

unfoldable pub truncate_from : ℕ → SegmentedLog → Fallible SegmentedLog
unfolding get retain cut_segment remove_files any reopen_active
truncate_from index log = do
  let to_delete = retain (λ s. leb index s) log.starts
  disk ← cut_segment index (get index log.records) log.disk
  disk' ← remove_files to_delete disk
  reopen_active (record log {
    disk = disk';
    records = retain (λ e. ltb e.0 index) log.records;
    starts = retain (λ s. not (any (λ d. s == d) to_delete)) log.starts;
  })

abbrev is_start : Option Active → ℕ → Bool
is_start none s = false
is_start (some active) s = active.start == s

-- The loop of `purge_through` over the starts: the last one has no next and is passed over.
unfoldable pub purge_files : ℕ → Option Active → List ℕ → Disk → Fallible Disk
unfolding remove_file
purge_files index active [] disk = ok disk
purge_files index active (start ∷ []) disk = ok disk
purge_files index active (start ∷ (next ∷ starts)) disk =
    let rest = purge_files index active (next ∷ starts) in
    if is_start active start
    then rest disk
    else if leb (next - 1) index
    then (do disk' ← remove_file start disk; rest disk')
    else rest disk

unfoldable pub purge_through : ℕ → SegmentedLog → Fallible SegmentedLog
unfolding retain any purge_files
purge_through index log = do
  let records = retain (λ e. ltb index e.0) log.records
  disk ← purge_files index log.active log.starts log.disk
  ok (record log {
    disk = disk;
    records = records;
    starts =
        retain (λ s. is_start log.active s || any (λ e. e.1.segment_start == s) records) log.starts;
  })
