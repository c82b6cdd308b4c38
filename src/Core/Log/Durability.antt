-- ===== src/Core/Log/Durability.antt =====
-- What is written to the log is there after a restart: the operations of crates/core/src/log.rs
-- together.
use lumen.Base.{
  ℕ, ◌+◌, ◌<◌, u32_mod, u64_mod, ◌≡◌, refl, sym, ap, ◌∙◌, none, List, [], ◌∷◌, ◌++◌, append_assoc,
  append-nil, length, length-append, All, arith, ok, lt→ltb, ◌>>=◌, nat_ord,
}
use lumen.Core.Error.{Fallible}
use lumen.Core.Log.{SegmentedLog, append, rotate, write_frame, read_all, open_with_segment_max}
use lumen.Core.Log.Frame.{Bytes}
use lumen.Core.Log.Frame.Scan.{Fits, frames}
use lumen.Core.Log.Frame.Torn.{nil-IsTorn}
use lumen.Core.Log.Segments.{Segment, contents, numbered, disk_of, Holds}
use lumen.Core.Log.Reading.{read_all-Holds}
use lumen.Core.Log.Appending.{next_index, write_frame-Holds}
use lumen.Core.Log.Rotation.{grown, contents-grown, append-Holds}
use lumen.Core.Log.Recovery.{open_torn}

-- `for (i, p) in (index..).zip(payloads) { log.append(i, p)? }`
unfoldable pub append_each : (Bytes → ℕ) → ℕ → List Bytes → SegmentedLog → Fallible SegmentedLog
append_each crc32c index [] log = ok log
append_each crc32c index (p ∷ ps) log = do
  log' ← append crc32c index p log
  append_each crc32c (index + 1) ps log'

-- The log of an empty directory.
abbrev pub empty_log : ℕ → SegmentedLog
empty_log max = record {
  disk = [];
  segment_max_bytes = max;
  starts = [];
  records = [];
  active = none;
}

module _ (crc32c : Bytes → ℕ) where
  -- After an append the reads have the old records and then the new one.
  read_all-append :
      (log : SegmentedLog) (n : ℕ) (closed : List Segment) (last : Segment) (p : Bytes)
      → Holds crc32c log n closed last
      → Fits p
      → next_index last + 1 < u64_mod
      → 0 < log.segment_max_bytes
      → (append crc32c (next_index last) p log >>= read_all)
        ≡ (do old ← read_all log; ok (old ++ (next_index last, p) ∷ []))
  read_all-append log n closed last p h fits bound pos =
      let (log', e, h') = append-Holds crc32c log n closed last p h fits bound pos in
      rw (e, read_all-Holds crc32c log n closed last h)
        (read_all-Holds crc32c log' n _ _ h'
          ∙ ap ok (contents-grown crc32c log.segment_max_bytes closed last p))

  append_max :
      (index : ℕ) (p : Bytes) (log log' : SegmentedLog)
      → append crc32c index p log ≡ ok log'
      → log'.segment_max_bytes ≡ log.segment_max_bytes
  unfolding append
  append_max index p log log' e = ground arith

  next-grown :
      (max : ℕ) (closed : List Segment) (last : Segment) (p : Bytes)
      → next_index (grown crc32c max closed last p).1 ≡ next_index last + 1
  next-grown max closed last p = ground (arith, length-append last.payloads (p ∷ []))

  pub append_each-Holds :
      (ps : List Bytes) (log : SegmentedLog) (n : ℕ) (closed : List Segment) (last : Segment)
      → Holds crc32c log n closed last
      → All Fits ps
      → next_index last + length ps < u64_mod
      → 0 < log.segment_max_bytes
      → (log' : SegmentedLog) × (closed' : List Segment) × (last' : Segment) × (append_each crc32c
            (next_index last)
            ps
            log
          ≡ ok log')
        × Holds crc32c log' n closed' last'
        × (contents closed' last' ≡ contents closed last ++ numbered (next_index last) ps)
        × (log'.segment_max_bytes ≡ log.segment_max_bytes)
  unfolding append_each
  append_each-Holds [] log n closed last h fits bound pos =
      (log, closed, last, refl, h, sym (append-nil (contents closed last)), refl)
  append_each-Holds (p ∷ ps) log n closed last h fits bound pos =
      let max = log.segment_max_bytes in
      let (log', e, h') = append-Holds crc32c log n closed last p h fits.0 (omega arith) pos in
      let g = grown crc32c max closed last p in
      let en = next-grown max closed last p in
      let em = append_max (next_index last) p log log' e in
      let (log'', closed', last', e', h'', ec, em') =
        append_each-Holds ps log' n g.0 g.1 h' fits.1 (omega arith) (omega arith) in
      (
        log'',
        closed',
        last',
        rw (e, ← en) e',
        h'',
        ec
            ∙ rw (en, contents-grown crc32c max closed last p)
                (append_assoc (contents closed last) ((next_index last, p) ∷ []) _),
        em' ∙ em,
      )

  first_append :
      (max index : ℕ) (p : Bytes)
      → Fits p
      → append crc32c index p (empty_log max)
        ≡ ok (
            write_frame crc32c index p
              (record { start = index; bytes = 0 })
              (rotate index (empty_log max)))
  unfolding append
  first_append max index p fits = rw (lt→ltb (length p) u32_mod fits)

  rotated-Holds :
      (max index : ℕ)
      → index < u64_mod
      → Holds crc32c
          (rotate index (empty_log max))
          index
          []
          (record { start = index; payloads = [] })
  unfolding rotate
  rotated-Holds max index bound = record {
    disk = refl;
    starts = refl;
    records = refl;
    active = refl;
    chain = tt;
    last_start = refl;
    sized = (tt, omega arith);
  }

  first-Holds :
      (max index : ℕ) (p : Bytes)
      → Fits p
      → index + 1 < u64_mod
      → (log : SegmentedLog) × (append crc32c index p (empty_log max) ≡ ok log)
        × Holds crc32c log index [] (record { start = index; payloads = p ∷ [] })
        × (log.segment_max_bytes ≡ max)
  first-Holds max index p fits bound =
      let log = rotate index (empty_log max) in
      let e : index + 0 ≡ index = omega arith in
      (
        write_frame crc32c index p (record { start = index; bytes = 0 }) log,
        first_append max index p fits,
        (rw e at (
            write_frame-Holds crc32c log index [] (record { start = index; payloads = [] }) p
              (rotated-Holds max index (omega arith)) fits (omega arith))),
        unfold write_frame rotate in refl,
      )

  module _ (crc_u32 : (b : Bytes) → crc32c b < u32_mod) where
    -- Opening the directory of a log gives the log.
    pub open-Holds :
        (log : SegmentedLog) (n : ℕ) (closed : List Segment) (last : Segment)
        → Holds crc32c log n closed last
        → open_with_segment_max crc32c log.disk log.segment_max_bytes ≡ ok log
    open-Holds log n closed last h =
        ap (λ d. open_with_segment_max crc32c d log.segment_max_bytes)
          (h.disk
            ∙ ap (λ b. disk_of crc32c closed ++ (last.start, b) ∷ [])
                (sym (append-nil (frames crc32c last.payloads))))
        ∙ open_torn crc32c crc_u32 log n closed last [] h (nil-IsTorn crc32c)

    -- Payloads of less than 2^32 bytes each, appended at indexes below 2^64 to an empty directory,
    -- are read back at their indexes and in their order after the directory is opened again,
    -- whatever the positive size at which segments are rotated.
    pub session_round_trip :
        (max index : ℕ) (p : Bytes) (ps : List Bytes)
        → All Fits (p ∷ ps)
        → index + length (p ∷ ps) < u64_mod
        → 0 < max
        → (do
          log ← append_each crc32c index (p ∷ ps) (empty_log max)
          reopened ← open_with_segment_max crc32c log.disk max
          read_all reopened)
          ≡ ok (numbered index (p ∷ ps))
    session_round_trip max index p ps fits bound pos =
        let (log, e, h, em) = first-Holds max index p fits.0 (omega arith) in
        let (log', closed, last, e', h', ec, em') =
          append_each-Holds ps log index [] (record { start = index; payloads = p ∷ [] }) h fits.1
            (omega arith) (omega arith) in
        let opened : open_with_segment_max crc32c log'.disk max ≡ ok log' =
          ap (open_with_segment_max crc32c log'.disk) (sym (em' ∙ em))
          ∙ open-Holds log' index closed last h' in
        let both : append_each crc32c index (p ∷ ps) (empty_log max) ≡ ok log' =
          unfold append_each in rw e e' in
        rw (both, opened) (read_all-Holds crc32c log' index closed last h' ∙ ap ok ec)
