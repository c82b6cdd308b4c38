-- ===== src/Core/Log/Rotation.antt =====
-- A log that is full goes on in a new segment; `append` of crates/core/src/log.rs as a whole.
use lumen.Base.{
  ℕ, suc, ◌+◌, ◌≤◌, ◌<◌, u64_mod, ◌≡◌, refl, sym, ap, ◌∙◌, inl, inr, none, some, false, List, [],
  ◌∷◌, ◌++◌, append_assoc, append-nil, length, arith, nat_ord, Above, get, insert, insert-Above,
  get-none-Above, ok, leb, Bool-cases, leb→le, if◌then◌else◌, ◌==◌, any, sort,
}
use lumen.Core.Log.{Active, SegmentedLog, Disk, create_file, rotate, write_frame, append}
use lumen.Core.Log.Frame.{Bytes}
use lumen.Core.Log.Frame.Scan.{Fits, frames}
use lumen.Core.Log.Segments.{
  Segment, IsChain, end_of, end_of-le, seg_records, records_of, starts_of, contents_of, contents,
  numbered, disk_of, disk_of-Above, Holds, records_of-append, contents_of-append, starts_of-append,
  disk_of-append, end_of-append, IsChain-append,
}
use lumen.Core.Log.Appending.{snoc, next_index, write_frame-Holds}

any_starts :
    (n k : ℕ) (segs : List Segment)
    → IsChain n segs
    → end_of n segs ≤ k
    → any (λ s. s == k) (starts_of segs) ≡ false
unfolding any
any_starts n k [] c h = refl
any_starts n k (s ∷ r) c h =
    ground
      (arith, any_starts (n + length s.payloads) k r c.3 h, end_of-le (n + length s.payloads) r)

-- The starts of a chain stand in order.
sort_starts :
    (n k : ℕ) (segs : List Segment)
    → IsChain n segs
    → end_of n segs ≤ k
    → sort (starts_of segs ++ k ∷ []) ≡ starts_of segs ++ k ∷ []
unfolding sort
sort_starts n k [] c h = refl
sort_starts n k (s ∷ []) c h = ground arith
sort_starts n k (s ∷ (t ∷ r)) c h =
    rw (sort_starts (n + length s.payloads) k (t ∷ r) c.3 h) (ground arith)

module _ (crc32c : Bytes → ℕ) where
  create_file-Above :
      (k : ℕ) (disk : Disk) → Above k disk → create_file k disk ≡ disk ++ (k, []) ∷ []
  create_file-Above k disk a = created (get-none-Above k disk a) ∙ insert-Above k [] disk a
    where
      created : get k disk ≡ none → create_file k disk ≡ insert k [] disk
      created e = unfold create_file in ground arith

  pub rotate-Holds :
      (log : SegmentedLog) (n : ℕ) (closed : List Segment) (last : Segment)
      → Holds crc32c log n closed last
      → 0 < length last.payloads
      → Holds crc32c
          (rotate (next_index last) log)
          n
          (closed ++ last ∷ [])
          (record { start = next_index last; payloads = [] })
  unfolding rotate
  rotate-Holds log n closed last h some_records =
      let k = next_index last in
      let c = IsChain-append n closed last h.chain h.last_start h.sized some_records in
      let e : end_of n (closed ++ last ∷ []) ≡ k =
        end_of-append n closed last ∙ ap (λ m. m + length last.payloads) (sym h.last_start) in
      let e' : log.starts ≡ starts_of (closed ++ last ∷ []) =
        h.starts ∙ sym (starts_of-append closed last) in
      let segs = closed ++ last ∷ [] in
      let below : end_of n segs ≤ k = omega arith in
      record {
        disk =
            rw (h.disk, ← disk_of-append crc32c closed last)
              (create_file-Above k (disk_of crc32c segs) (disk_of-Above crc32c n k segs c below));
        starts = rw (e', any_starts n k segs c below) (sort_starts n k segs c below);
        records =
            rw (h.records, records_of-append closed last)
              (sym (append-nil (records_of closed ++ seg_records last)));
        active = refl;
        chain = c;
        last_start = sym e;
        sized = (tt, omega (arith, h.sized.1));
      }

  -- The segments of the log once a payload is appended.
  abbrev pub grown : ℕ → List Segment → Segment → Bytes → List Segment × Segment
  grown max closed last p =
      if leb max (length (frames crc32c last.payloads))
      then (closed ++ last ∷ [], record { start = next_index last; payloads = p ∷ [] })
      else (closed, snoc last p)

  pub contents-grown :
      (max : ℕ) (closed : List Segment) (last : Segment) (p : Bytes)
      → contents (grown max closed last p).0 (grown max closed last p).1
        ≡ contents closed last ++ (next_index last, p) ∷ []
  contents-grown max closed last p =
      elim (Bool-cases (leb max (length (frames crc32c last.payloads)))) [
        | inl full ↦
            rw full (ap (λ l. l ++ (next_index last, p) ∷ []) (contents_of-append closed last))
        | inr room ↦
            rw (room, numbered-append last.start last.payloads)
              (sym (append_assoc (contents_of closed) (numbered last.start last.payloads) _))
      ]
    where
      numbered-append :
          (i : ℕ) (ps : List Bytes)
          → numbered i (ps ++ p ∷ []) ≡ numbered i ps ++ (i + length ps, p) ∷ []
      numbered-append i [] = let e : i + 0 ≡ i = omega arith in rw e
      numbered-append i (q ∷ ps) =
          let e : i + 1 + length ps ≡ i + suc (length ps) = omega arith in
          rw (numbered-append (i + 1) ps, e)

  -- The log once the payload is in it.
  abbrev pub appended : SegmentedLog → Segment → Bytes → SegmentedLog
  appended log last p =
      if leb log.segment_max_bytes (length (frames crc32c last.payloads))
      then write_frame crc32c (next_index last) p (record { start = next_index last; bytes = 0 })
          (rotate (next_index last) log)
      else write_frame crc32c (next_index last) p
          (record { start = last.start; bytes = length (frames crc32c last.payloads) }) log

  append_active :
      (index : ℕ) (p : Bytes) (log : SegmentedLog) (a : Active)
      → log.active ≡ some a
      → Fits p
      → append crc32c index p log
        ≡ ok (
            if leb log.segment_max_bytes a.bytes
            then write_frame crc32c index p (record { start = index; bytes = 0 }) (rotate index log)
            else write_frame crc32c index p a log)
  unfolding append
  append_active index p log a e fits = ground arith

  pub append-appended :
      (log : SegmentedLog) (n : ℕ) (closed : List Segment) (last : Segment) (p : Bytes)
      → Holds crc32c log n closed last
      → Fits p
      → append crc32c (next_index last) p log ≡ ok (appended log last p)
  append-appended log n closed last p h fits = append_active (next_index last) p log _ h.active fits

  pub nonempty_frames : (ps : List Bytes) → 0 < length (frames crc32c ps) → 0 < length ps
  nonempty_frames [] h = absurd (omega arith)
  nonempty_frames (p ∷ ps) h = omega arith

  -- `append` at the index that follows the last record keeps the log well formed: the payload goes
  -- to the end of the active segment or, if that is full, starts a new one.
  pub append-Holds :
      (log : SegmentedLog) (n : ℕ) (closed : List Segment) (last : Segment) (p : Bytes)
      → Holds crc32c log n closed last
      → Fits p
      → next_index last + 1 < u64_mod
      → 0 < log.segment_max_bytes
      → (log' : SegmentedLog) × (append crc32c (next_index last) p log ≡ ok log')
        × Holds crc32c log' n
            (grown log.segment_max_bytes closed last p).0
            (grown log.segment_max_bytes closed last p).1
  append-Holds log n closed last p h fits bound pos =
      (appended log last p, append-appended log n closed last p h fits, holds)
    where
      holds :
          Holds crc32c
            (appended log last p)
            n
            (grown log.segment_max_bytes closed last p).0
            (grown log.segment_max_bytes closed last p).1
      holds = elim (Bool-cases (leb log.segment_max_bytes (length (frames crc32c last.payloads)))) [
        | inl full ↦
            let some_records : 0 < length last.payloads =
              nonempty_frames last.payloads (omega (arith, leb→le log.segment_max_bytes _ full)) in
            let e : next_index last + 0 ≡ next_index last = omega arith in
            rw full (
              rw e at (
                write_frame-Holds crc32c (rotate (next_index last) log) n (closed ++ last ∷ [])
                  (record { start = next_index last; payloads = [] }) p
                  (rotate-Holds log n closed last h some_records) fits (omega arith)))
        | inr room ↦ rw room (write_frame-Holds crc32c log n closed last p h fits bound)
      ]
