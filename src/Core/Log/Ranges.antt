-- ===== src/Core/Log/Ranges.antt =====
-- Ranges of records (`read_range` of crates/core/src/log.rs).
use lumen.Base.{
  ℕ, ◌≤◌, ltb, leb, Bool, Bool-cases, false, inl, inr, some, List, [], ◌∷◌, Result-cases, ok, ◌≡◌,
  sym, ap, ◌∙◌, arith, retain, if◌then◌else◌, err_ok, ok_inj,
}
use lumen.Core.Log.{
  Disk, Records, SegmentedLog, read_locs, read_all, range, read_range, read_exact_at, read_file,
}
use lumen.Core.Log.Frame.{Bytes}
use lumen.Core.Log.Segments.{Segment, Holds, contents}
use lumen.Core.Log.Reading.{read_all-Holds}

-- The records with an index from `from` on and below `to`.
abbrev pub in_range : ℕ → ℕ → ℕ → Bool
in_range from to index = if leb from index then ltb index to else false

-- What the reads give of the records that a test of the index keeps.
read_locs-retain :
    (p : ℕ → Bool) (disk : Disk) (records : Records) (out : List (ℕ × Bytes))
    → read_locs disk records ≡ ok out
    → read_locs disk (retain (λ e. p e.0) records) ≡ ok (retain (λ e. p e.0) out)
unfolding retain read_locs
read_locs-retain p disk [] out h = ap (λ o. ok (retain (λ e. p e.0) o)) (ok_inj [] out h)
read_locs-retain p disk ((index, loc) ∷ records) out h =
    elim (Result-cases (read_file loc.segment_start disk)) [
      | inl (x, e) ↦ absurd (err_ok x out (rw (e, read_locs) at h))
      | inr (file, e) ↦ elim (Result-cases (read_exact_at file loc.len loc.payload_offset)) [
        | inl (x, f) ↦ absurd (err_ok x out (rw (e, f, read_locs) at h))
        | inr (buf, f) ↦ elim (Result-cases (read_locs disk records)) [
          | inl (x, g) ↦ absurd (err_ok x out (rw (e, f, g, read_locs) at h))
          | inr (rest, g) ↦
              let q : ((index, buf) ∷ rest) ≡ out = ok_inj _ out (rw (e, f, g, read_locs) at h) in
              let more = read_locs-retain p disk records rest g in
              let choice = λ (b : Bool).
                if b then (index, buf) ∷ retain (λ e. p e.0) rest else retain (λ e. p e.0) rest in
              elim (Bool-cases (p index)) [
                | inl b ↦
                    rw (b, retain)
                      (rw (e, read_locs, f, more)
                        (ap (λ b'. ok (choice b')) (sym b)
                          ∙ ap (λ o. ok (retain (λ e. p e.0) o)) q))
                | inr b ↦
                    rw (b, retain)
                      (more
                        ∙ ap (λ b'. ok (choice b')) (sym b)
                        ∙ ap (λ o. ok (retain (λ e. p e.0) o)) q)
              ]
        ]
      ]
    ]

module _ (crc32c : Bytes → ℕ) where
  -- A range that does not end before it starts gives the records whose index it has, in order.
  pub read_range-Holds :
      (log : SegmentedLog) (n : ℕ) (closed : List Segment) (last : Segment) (from to : ℕ)
      → Holds crc32c log n closed last
      → from ≤ to
      → read_range from to log
        ≡ some (ok (retain (λ e. in_range from to e.0) (contents closed last)))
  unfolding read_range range read_all
  read_range-Holds log n closed last from to h le =
      let ordered : ltb to from ≡ false = ground arith in
      rw (ordered, read_range)
        (ap some (
          read_locs-retain (in_range from to) log.disk log.records (contents closed last)
            (read_all-Holds crc32c log n closed last h)))
