-- ===== src/Core/Log/Crashes.antt =====
-- A crash in the middle of an append (`append` and `open_with_segment_max` of
-- crates/core/src/log.rs).
use lumen.Base.{
  ℕ, suc, ◌+◌, ◌-◌, ◌≤◌, ◌<◌, u32_mod, u64_mod, ◌≡◌, refl, sym, ap, ◌∙◌, subst, inl, inr, none,
  some, List, [], ◌∷◌, ◌++◌, length, length-append, take, arith, nat_ord, get-Above, replace-Above,
  ok, ok_inj, leb, leb→le, Bool-cases, if◌then◌else◌, append-nil,
}
use lumen.Core.Log.{SegmentedLog, Disk, set_len, append, rotate, read_all, open_with_segment_max}
use lumen.Core.Log.Frame.{Bytes, frame}
use lumen.Core.Log.Frame.Scan.{Fits, frames}
use lumen.Core.Log.Frame.Torn.{take-frame-IsTorn}
use lumen.Core.Log.Segments.{Segment, Holds, disk_of, disk_of-Above, contents_of-append}
use lumen.Core.Log.Appending.{snoc, next_index, write_frame-Holds, frames-snoc}
use lumen.Core.Log.Rotation.{rotate-Holds, append-appended, appended, nonempty_frames}
use lumen.Core.Log.Reading.{read_all-Holds}
use lumen.Core.Log.Recovery.{open_torn, set_len-some}

-- The directory of a log whose last bytes were not written.
unfoldable pub lost : ℕ → SegmentedLog → Disk
unfolding set_len
lost k log = elim log.active [
  | none ↦ log.disk
  | some active ↦ set_len active.start (active.bytes - k) log.disk
]

take_past : (xs ys : Bytes) (j : ℕ) → take (length xs + j) (xs ++ ys) ≡ xs ++ take j ys
take_past [] ys j = let e : 0 + j ≡ j = omega arith in ap (λ m. take m ys) e
take_past (x ∷ xs) ys j =
    let e : suc (length xs) + j ≡ suc (length xs + j) = omega arith in
    ap (λ m. take m (x ∷ (xs ++ ys))) e ∙ ap (λ l. x ∷ l) (take_past xs ys j)

module _ (crc32c : Bytes → ℕ) (crc_u32 : (b : Bytes) → crc32c b < u32_mod) where
  lost-Holds :
      (log : SegmentedLog) (n : ℕ) (closed : List Segment) (last : Segment) (k : ℕ)
      → Holds crc32c log n closed last
      → lost k log
        ≡ disk_of crc32c closed
          ++ (
            last.start,
            take (length (frames crc32c last.payloads) - k) (frames crc32c last.payloads),
          )
            ∷ []
  unfolding lost
  lost-Holds log n closed last k h =
      let bytes = frames crc32c last.payloads in
      let above = disk_of-Above crc32c n last.start closed h.chain (omega (arith, h.last_start)) in
      rw (h.active, h.disk)
        (set_len-some last.start (length bytes - k) _ bytes
            (get-Above last.start bytes (disk_of crc32c closed) above)
          ∙ replace-Above last.start bytes _ (disk_of crc32c closed) above)

  -- A frame that lost bytes is cut off, and leaves the log that it was written to.
  open_lost :
      (log : SegmentedLog) (n : ℕ) (closed : List Segment) (last : Segment) (p : Bytes) (k : ℕ)
      (log' : SegmentedLog)
      → Holds crc32c log n closed last
      → Holds crc32c log' n closed (snoc last p)
      → Fits p
      → 0 < k
      → k ≤ length (frame crc32c p)
      → open_with_segment_max crc32c (lost k log') log.segment_max_bytes ≡ ok log
  open_lost log n closed last p k log' h h' fits some_lost only =
      let fs = frames crc32c last.payloads in
      let j = length (frame crc32c p) - k in
      let e : length (fs ++ frame crc32c p) - k ≡ length fs + j =
        omega (arith, length-append fs (frame crc32c p)) in
      ap (λ d. open_with_segment_max crc32c d log.segment_max_bytes)
        (lost-Holds log' n closed (snoc last p) k h'
          ∙ ap (λ bytes. disk_of crc32c closed ++ (last.start, take (length bytes - k) bytes) ∷ [])
              (frames-snoc crc32c last.payloads p)
          ∙ ap (λ m. disk_of crc32c closed ++ (last.start, take m (fs ++ frame crc32c p)) ∷ []) e
          ∙ ap (λ bytes. disk_of crc32c closed ++ (last.start, bytes) ∷ [])
              (take_past fs (frame crc32c p) j))
      ∙ open_torn crc32c crc_u32 log n closed last (take j (frame crc32c p)) h
          (take-frame-IsTorn crc32c p j fits (omega arith))

  -- The log that an append writes to: a full one is rotated first.
  abbrev pub target : SegmentedLog → Segment → SegmentedLog
  target log last =
      if leb log.segment_max_bytes (length (frames crc32c last.payloads))
      then rotate (next_index last) log
      else log

  -- After a crash in the middle of an append, of whose frame at least the last byte was not
  -- written, opening gives a log with the records from before the append: the log itself, or the
  -- log with an empty new segment if the append had rotated a full one. The payload has less than
  -- 2^32 bytes, its index is below 2^64 - 1, and the size at which segments are rotated is
  -- positive.
  pub open_crashed :
      (log log' : SegmentedLog) (n : ℕ) (closed : List Segment) (last : Segment) (p : Bytes) (k : ℕ)
      → Holds crc32c log n closed last
      → Fits p
      → next_index last + 1 < u64_mod
      → 0 < log.segment_max_bytes
      → append crc32c (next_index last) p log ≡ ok log'
      → 0 < k
      → k ≤ length (frame crc32c p)
      → (open_with_segment_max crc32c (lost k log') log.segment_max_bytes ≡ ok (target log last))
        × (read_all (target log last) ≡ read_all log)
  unfolding rotate
  open_crashed log log' n closed last p k h fits bound pos wrote some_lost only =
      let same : appended crc32c log last p ≡ log' =
        ok_inj _ log' (sym (append-appended crc32c log n closed last p h fits) ∙ wrote) in
      subst
        (λ x.
          (open_with_segment_max crc32c (lost k x) log.segment_max_bytes ≡ ok (target log last))
          × (read_all (target log last) ≡ read_all log))
        same crashed
    where
      crashed :
          (open_with_segment_max crc32c (lost k (appended crc32c log last p)) log.segment_max_bytes
            ≡ ok (target log last))
          × (read_all (target log last) ≡ read_all log)
      crashed =
          elim (Bool-cases (leb log.segment_max_bytes (length (frames crc32c last.payloads)))) [
            | inl full ↦
                let some_records : 0 < length last.payloads =
                  nonempty_frames crc32c last.payloads
                    (omega (arith, leb→le log.segment_max_bytes _ full)) in
                let fresh : Segment = record { start = next_index last; payloads = [] } in
                let h1 = rotate-Holds crc32c log n closed last h some_records in
                let e : next_index last + 0 ≡ next_index last = omega arith in
                let h2 =
                  (rw e at (
                    write_frame-Holds crc32c (rotate (next_index last) log) n (closed ++ last ∷ [])
                      fresh p h1 fits (omega arith))) in
                rw full (
                  open_lost (rotate (next_index last) log) n (closed ++ last ∷ []) fresh p k _ h1 h2
                      fits some_lost only,
                  read_all-Holds crc32c (rotate (next_index last) log) n (closed ++ last ∷ []) fresh
                        h1
                      ∙ ap ok (append-nil _ ∙ contents_of-append closed last)
                      ∙ sym (read_all-Holds crc32c log n closed last h),
                )
            | inr room ↦ rw room (
              open_lost log n closed last p k _ h
                  (write_frame-Holds crc32c log n closed last p h fits bound) fits some_lost only,
              refl,
            )
          ]
