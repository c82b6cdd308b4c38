-- ===== src/Core/Log/Appending.antt =====
-- `append` and `rotate` of crates/core/src/log.rs.
use lumen.Base.{
  ℕ, suc, ◌+◌, ◌≤◌, ◌<◌, u64_mod, ◌≡◌, ap, ◌∙◌, some, List, [], ◌∷◌, ◌++◌, append_assoc, append-nil,
  length, All-append, arith, nat_ord, Above, Above-append, get, insert, replace-Above, get-Above,
  insert-Above, length-append,
}
use lumen.Core.Log.{SegmentedLog, Disk, append_file, write_frame}
use lumen.Core.Log.Frame.{Bytes, frame, header_bytes}
use lumen.Core.Log.Frame.Scan.{Fits, frames, frames-append, length-frame, locs_of}
use lumen.Core.Log.Segments.{
  Segment, IsChain, end_of, tagged, seg_records, records_of, disk_of, disk_of-Above, tagged-Above,
  records_of-Above, Holds,
}

abbrev pub snoc : Segment → Bytes → Segment
snoc s p = record s { payloads = s.payloads ++ p ∷ [] }

abbrev pub next_index : Segment → ℕ
next_index s = s.start + length s.payloads

module _ (crc32c : Bytes → ℕ) where
  tagged_locs-append :
      (s index offset : ℕ) (ps : List Bytes) (p : Bytes)
      → tagged s (locs_of index offset (ps ++ p ∷ []))
        ≡ tagged s (locs_of index offset ps)
          ++ (
            index + length ps,
            record {
              segment_start = s;
              payload_offset = offset + length (frames crc32c ps) + header_bytes;
              len = length p;
            },
          )
            ∷ []
  tagged_locs-append s index offset [] p =
      let e : index + 0 ≡ index = omega arith in
      let e' : offset + 0 ≡ offset = omega arith in rw (e, e')
  tagged_locs-append s index offset (q ∷ ps) p =
      let e : index + 1 + length ps ≡ index + suc (length ps) = omega arith in
      let e' : offset + 8 + length q + length (frames crc32c ps)
          ≡ offset + length (frame crc32c q ++ frames crc32c ps) =
        omega (arith, length-append (frame crc32c q) (frames crc32c ps), length-frame crc32c q) in
      rw (tagged_locs-append s (index + 1) (offset + 8 + length q) ps p, e, e')

  pub append_file_last :
      (n : ℕ) (closed : List Segment) (k : ℕ) (old new : Bytes)
      → IsChain n closed
      → end_of n closed ≤ k
      → append_file k new (disk_of crc32c closed ++ (k, old) ∷ [])
        ≡ disk_of crc32c closed ++ (k, old ++ new) ∷ []
  append_file_last n closed k old new c h =
      let above = disk_of-Above crc32c n k closed c h in
      append_file_some k new _ old (get-Above k old (disk_of crc32c closed) above)
      ∙ replace-Above k old (old ++ new) (disk_of crc32c closed) above
    where
      append_file_some :
          (start : ℕ) (bytes : Bytes) (disk : Disk) (old : Bytes)
          → get start disk ≡ some old
          → append_file start bytes disk ≡ insert start (old ++ bytes) disk
      append_file_some start bytes disk old e = unfold append_file in ground arith

  pub frames-snoc :
      (ps : List Bytes) (p : Bytes)
      → frames crc32c (ps ++ p ∷ []) ≡ frames crc32c ps ++ frame crc32c p
  frames-snoc ps p =
      frames-append crc32c ps (p ∷ [])
      ∙ ap (λ t. frames crc32c ps ++ t) (append-nil (frame crc32c p))

  last_records-Above :
      (n : ℕ) (closed : List Segment) (last : Segment)
      → IsChain n closed
      → last.start ≡ end_of n closed
      → Above (next_index last) (records_of closed ++ seg_records last)
  last_records-Above n closed last c e =
      Above-append (next_index last) (records_of closed) (seg_records last)
        (records_of-Above n (next_index last) closed c (omega arith))
        (tagged-Above last.start last.start 0 (next_index last) last.payloads (omega arith))

  pub write_frame-Holds :
      (log : SegmentedLog) (n : ℕ) (closed : List Segment) (last : Segment) (p : Bytes)
      → Holds crc32c log n closed last
      → Fits p
      → next_index last + 1 < u64_mod
      → Holds crc32c
          (write_frame crc32c
            (next_index last)
            p
            (record { start = last.start; bytes = length (frames crc32c last.payloads) })
            log)
          n
          closed
          (snoc last p)
  unfolding write_frame
  write_frame-Holds log n closed last p h fits bound =
      let fs = frames crc32c last.payloads in
      record {
        disk = rw (
          h.disk,
          append_file_last n closed last.start fs (frame crc32c p) h.chain
              (omega (arith, h.last_start)),
          frames-snoc last.payloads p,
        );
        starts = h.starts;
        records =
            let e : 0 + length fs + 8 ≡ length fs + 8 = omega arith in
            rw
              (
                h.records,
                insert-Above (next_index last) _ _
                    (last_records-Above n closed last h.chain h.last_start),
                tagged_locs-append last.start last.start 0 last.payloads p,
                e,
              )
              (append_assoc (records_of closed) (seg_records last) _);
        active = rw (frames-snoc last.payloads p, length-append fs (frame crc32c p));
        chain = h.chain;
        last_start = h.last_start;
        sized = (
          All-append Fits last.payloads (p ∷ []) h.sized.0 (fits, tt),
          omega (arith, length-append last.payloads (p ∷ [])),
        );
      }
