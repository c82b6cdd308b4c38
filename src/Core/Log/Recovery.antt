-- ===== src/Core/Log/Recovery.antt =====
-- Opening a directory of segment files: `open_with_segment_max` of crates/core/src/log.rs.
use lumen.Base.{
  ℕ, ◌+◌, ◌≤◌, ◌<◌, u32_mod, ◌≡◌, refl, sym, ap, ◌∙◌, Option, none, some, false, List, [], ◌∷◌,
  ◌++◌, map, append_assoc, append-nil, length, take, arith, nat_ord, Above, Above-append, get,
  insert, replace-Above, length-append, take-append, ok, lt→ltb, not_lt→ltb,
}
use lumen.Core.Log.{
  Active, SegmentedLog, Disk, Records, Opened, is_empty, set_len, open_segments,
  open_with_segment_max,
}
use lumen.Core.Log.Frame.{Bytes, scan_segment}
use lumen.Core.Log.Frame.Scan.{IsTorn, frames, locs_of, scan_segment-frames}
use lumen.Core.Log.Frame.Torn.{nil-IsTorn}
use lumen.Core.Log.Segments.{
  Segment, IsSized, IsChain, end_of, seg_records, records_of, starts_of, disk_of, disk_of-Above,
  tagged-Above, Above-mono, Holds, index_locs-Above,
}
use lumen.Core.Log.Reading.{Stored, closed-Stored, last-stored}

is_empty_snoc : (segs : List Segment) (s : ℕ) → is_empty (starts_of segs ++ s ∷ []) ≡ false
is_empty_snoc [] s = refl
is_empty_snoc (x ∷ segs) s = refl

pub set_len-some :
    (start len : ℕ) (disk : Disk) (old : Bytes)
    → get start disk ≡ some old
    → set_len start len disk ≡ insert start (take len old) disk
unfolding set_len
set_len-some start len disk old e = ground arith

module _ (crc32c : Bytes → ℕ) (crc_u32 : (b : Bytes) → crc32c b < u32_mod) where
  scan_sized :
      (s : Segment) (tail : Bytes)
      → IsSized s
      → IsTorn crc32c tail
      → scan_segment crc32c s.start (frames crc32c s.payloads ++ tail)
        ≡ (locs_of s.start 0 s.payloads, length (frames crc32c s.payloads))
  scan_sized s tail z t = scan_segment-frames crc32c crc_u32 s.start s.payloads tail z.0 t z.1

  scan_whole :
      (s : Segment)
      → IsSized s
      → scan_segment crc32c s.start (frames crc32c s.payloads)
        ≡ (locs_of s.start 0 s.payloads, length (frames crc32c s.payloads))
  scan_whole s z =
      ap (scan_segment crc32c s.start) (sym (append-nil (frames crc32c s.payloads)))
      ∙ scan_sized s [] z (nil-IsTorn crc32c)

  -- The directory after the open: the torn bytes are gone.
  abbrev mended : Disk → Segment → Bytes → Disk
  mended disk last [] = disk
  mended disk last (b ∷ tail) = set_len last.start (length (frames crc32c last.payloads)) disk

  abbrev opened : Disk → List Segment → Segment → Bytes → Records → Opened
  opened disk segs last tail records = record {
    disk = mended disk last tail;
    starts = starts_of segs ++ last.start ∷ [];
    records = records ++ (records_of segs ++ seg_records last);
    active = some (record { start = last.start; bytes = length (frames crc32c last.payloads) });
  }

  open_last :
      (disk : Disk) (last : Segment) (tail : Bytes) (records : Records) (active : Option Active)
      → IsSized last
      → IsTorn crc32c tail
      → get last.start disk ≡ some (frames crc32c last.payloads ++ tail)
      → Above last.start records
      → open_segments crc32c (last.start ∷ []) disk records active
        ≡ ok (opened disk [] last tail records)
  unfolding open_segments
  open_last disk last [] records active z t g a = rw (
    g,
    append-nil (frames crc32c last.payloads),
    scan_whole last z,
    index_locs-Above last.start last.start 0 last.payloads records a,
    not_lt→ltb (length (frames crc32c last.payloads)) (length (frames crc32c last.payloads))
        (omega arith),
  )
  open_last disk last (b ∷ tail) records active z t g a = rw (
    g,
    scan_sized last (b ∷ tail) z t,
    index_locs-Above last.start last.start 0 last.payloads records a,
    lt→ltb (length (frames crc32c last.payloads)) (length (frames crc32c last.payloads ++ b ∷ tail))
        (omega (arith, length-append (frames crc32c last.payloads) (b ∷ tail))),
  )

  open_closed :
      (n : ℕ) (disk : Disk) (segs : List Segment) (last : Segment) (tail : Bytes)
      (records : Records) (active : Option Active)
      → IsChain n segs
      → last.start ≡ end_of n segs
      → IsSized last
      → IsTorn crc32c tail
      → Stored crc32c disk segs
      → get last.start disk ≡ some (frames crc32c last.payloads ++ tail)
      → Above n records
      → open_segments crc32c (starts_of segs ++ last.start ∷ []) disk records active
        ≡ ok (opened disk segs last tail records)
  unfolding open_segments
  open_closed n disk [] last tail records active c e z t st g a =
      open_last disk last tail records active z t g (rw e a)
  open_closed n disk (s ∷ r) last tail records active c e z t st g a =
      let above : Above s.start records = rw c.0 a in
      let next : Above (n + length s.payloads) (records ++ seg_records s) =
        Above-append (n + length s.payloads) records (seg_records s)
          (Above-mono records (omega arith) a)
          (tagged-Above s.start s.start 0 (n + length s.payloads) s.payloads (omega arith)) in
      rw (
        st.0,
        scan_whole s c.1,
        index_locs-Above s.start s.start 0 s.payloads records above,
        not_lt→ltb (length (frames crc32c s.payloads)) (length (frames crc32c s.payloads))
            (omega arith),
        is_empty_snoc r last.start,
        open_closed (n + length s.payloads) disk r last tail (records ++ seg_records s) active c.3 e
            z t st.1 g next,
        append_assoc records (seg_records s) (records_of r ++ seg_records last),
        append_assoc (seg_records s) (records_of r) (seg_records last),
      )

  keys_of_disk :
      (segs : List Segment) (k : ℕ) (b : Bytes)
      → map (λ (e : ℕ × Bytes). e.0) (disk_of crc32c segs ++ (k, b) ∷ []) ≡ starts_of segs ++ k ∷ []
  keys_of_disk [] k b = refl
  keys_of_disk (s ∷ segs) k b = ap (λ l. s.start ∷ l) (keys_of_disk segs k b)

  mended_lem :
      (n : ℕ) (segs : List Segment) (last : Segment) (tail : Bytes)
      → IsChain n segs
      → last.start ≡ end_of n segs
      → mended
          (disk_of crc32c segs ++ (last.start, frames crc32c last.payloads ++ tail) ∷ [])
          last
          tail
        ≡ disk_of crc32c segs ++ (last.start, frames crc32c last.payloads) ∷ []
  mended_lem n segs last [] c e = rw (append-nil (frames crc32c last.payloads))
  mended_lem n segs last (b ∷ tail) c e = rw (
    set_len-some last.start (length (frames crc32c last.payloads)) _ _ (
        last-stored crc32c n last.start (frames crc32c last.payloads ++ b ∷ tail) segs c
          (omega arith)),
    take-append (frames crc32c last.payloads) (b ∷ tail),
    replace-Above last.start (frames crc32c last.payloads ++ b ∷ tail) (frames crc32c last.payloads)
        (disk_of crc32c segs) (disk_of-Above crc32c n last.start segs c (omega arith)),
  )

  -- Opening the files of a log gives the log back, whatever torn bytes follow its last record; the
  -- torn bytes are cut off.
  pub open_torn :
      (log : SegmentedLog) (n : ℕ) (closed : List Segment) (last : Segment) (tail : Bytes)
      → Holds crc32c log n closed last
      → IsTorn crc32c tail
      → open_with_segment_max crc32c
          (disk_of crc32c closed ++ (last.start, frames crc32c last.payloads ++ tail) ∷ [])
          log.segment_max_bytes
        ≡ ok log
  unfolding open_with_segment_max
  open_torn log n closed last tail h t =
      let e : end_of n closed ≤ last.start = omega (arith, h.last_start) in
      let disk = disk_of crc32c closed ++ (last.start, frames crc32c last.payloads ++ tail) ∷ [] in
      rw
        (
          keys_of_disk closed last.start (frames crc32c last.payloads ++ tail),
          open_closed n disk closed last tail [] none h.chain h.last_start h.sized t
              (closed-Stored crc32c n last.start (frames crc32c last.payloads ++ tail) closed
                h.chain)
              (last-stored crc32c n last.start (frames crc32c last.payloads ++ tail) closed h.chain
                e)
              tt,
          mended_lem n closed last tail h.chain h.last_start,
        )
        (ground (arith, h.disk, h.starts, h.records, h.active))
