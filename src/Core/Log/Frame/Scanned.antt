-- ===== src/Core/Log/Frame/Scanned.antt =====
-- What the loop of `scan_segment` (crates/core/src/log.rs) does on any bytes, as a relation.
use lumen.Base.{
  ◌↔◌, Bool, true, false, ℕ, zero, suc, ◌+◌, ◌%◌, ◌≤◌, ◌<◌, u64_mod, ◌≡◌, refl, sym, ap, ◌∙◌, subst,
  inl, inr, ◌⊎◌, List, [], ◌∷◌, length, take, drop, ltb, leb, ◌==◌, ==_iff, ==_refl, arith,
  Bool-cases, le→leb, not_lt→ltb,
}
use lumen.Core.Log.Frame.{Bytes, header_bytes, u32_at, scan_loop, scan_segment}

module _ (crc32c : Bytes → ℕ) (bytes : Bytes) where
  -- A whole record with the right checksum stands at the offset.
  abbrev pub IsWhole : ℕ → Type 0
  IsWhole offset =
      (offset + header_bytes + u32_at offset bytes ≤ length bytes)
      × (crc32c (take (u32_at offset bytes) (drop (offset + header_bytes) bytes))
          ≡ u32_at (offset + 4) bytes)

  -- The runs of the loop: from an index and an offset, over whole records, to where none stands.
  pub data Scans : ℕ → ℕ → List (ℕ × ℕ × ℕ) → ℕ → Type 0 where
    stop : {index offset : ℕ} → ¬ IsWhole offset → Scans index offset [] offset
    advance :
        {index offset end : ℕ} {locs : List (ℕ × ℕ × ℕ)}
        → IsWhole offset
        → Scans ((index + 1) % u64_mod) (offset + header_bytes + u32_at offset bytes) locs end
        → Scans index offset ((index, offset + header_bytes, u32_at offset bytes) ∷ locs) end

  scan_loop-IsWhole :
      (fuel index offset : ℕ)
      → IsWhole offset
      → scan_loop crc32c (suc fuel) bytes index offset ≡ (
          let rest =
            scan_loop crc32c fuel bytes
              ((index + 1) % u64_mod)
              (offset + header_bytes + u32_at offset bytes) in
          ((index, offset + header_bytes, u32_at offset bytes) ∷ rest.0, rest.1))
  unfolding scan_loop
  scan_loop-IsWhole fuel index offset (fits, crc) =
      rw
        (
          le→leb (offset + header_bytes) (length bytes) (omega arith),
          scan_loop,
          not_lt→ltb (length bytes) (offset + header_bytes + u32_at offset bytes) (omega arith),
          crc,
          ==_refl (u32_at (offset + 4) bytes),
        )
        refl

  scan_loop-stopped :
      (fuel index offset : ℕ)
      → ¬ IsWhole offset
      → scan_loop crc32c (suc fuel) bytes index offset ≡ ([], offset)
  unfolding scan_loop
  scan_loop-stopped fuel index offset not_whole =
      let body : ℕ = offset + header_bytes in
      let len : ℕ = u32_at offset bytes in
      elim (Bool-cases (leb body (length bytes))) [
        | inr e ↦ rw (e, scan_loop) refl
        | inl e ↦ elim (Bool-cases (ltb (length bytes) (body + len))) [
          | inl f ↦ rw (e, f, scan_loop) refl
          | inr f ↦
              elim (Bool-cases (crc32c (take len (drop body bytes)) == u32_at (offset + 4) bytes)) [
                | inl g ↦ absurd (not_whole (ground arith, (==_iff _ _).0 g))
                | inr g ↦ rw (e, f, g, scan_loop) refl
              ]
        ]
      ]

  clash : {b : Bool} → b ≡ true → b ≡ false → ⊥
  clash h k = ground arith

  IsWhole-cases : (offset : ℕ) → IsWhole offset ⊎ (¬ IsWhole offset)
  IsWhole-cases offset =
      let body : ℕ = offset + header_bytes in
      let len : ℕ = u32_at offset bytes in
      elim (Bool-cases (leb (body + len) (length bytes))) [
        | inr e ↦ inr (λ h. ground (arith, h.0))
        | inl e ↦
            elim (Bool-cases (crc32c (take len (drop body bytes)) == u32_at (offset + 4) bytes)) [
              | inl g ↦ inl (ground arith, (==_iff _ _).0 g)
              | inr g ↦ inr (λ h. clash ((==_iff _ _).1 h.1) g)
            ]
      ]

  scan_loop-Scans :
      (fuel index offset : ℕ)
      → length bytes < offset + fuel
      → Scans index offset
          (scan_loop crc32c fuel bytes index offset).0
          (scan_loop crc32c fuel bytes index offset).1
  unfolding scan_loop
  scan_loop-Scans zero index offset h = stop (λ w. omega (arith, w.0))
  scan_loop-Scans (suc fuel) index offset h = elim (IsWhole-cases offset) [
    | inl w ↦
        subst (λ r. Scans index offset r.0 r.1) (sym (scan_loop-IsWhole fuel index offset w))
          (advance w (
            scan_loop-Scans fuel ((index + 1) % u64_mod)
              (offset + header_bytes + u32_at offset bytes) (omega arith)))
    | inr n ↦
        subst (λ r. Scans index offset r.0 r.1) (sym (scan_loop-stopped fuel index offset n))
          (stop n)
  ]

  Scans-scan_loop :
      (fuel : ℕ) {index offset end : ℕ} {locs : List (ℕ × ℕ × ℕ)}
      → Scans index offset locs end
      → length bytes < offset + fuel
      → scan_loop crc32c fuel bytes index offset ≡ (locs, end)
  unfolding scan_loop
  Scans-scan_loop zero (stop n) h = refl
  Scans-scan_loop zero (advance w run) h = absurd (omega (arith, w.0))
  Scans-scan_loop (suc fuel) {index} {offset} (stop n) h = scan_loop-stopped fuel index offset n
  Scans-scan_loop (suc fuel) {index} {offset} (advance w run) h =
      scan_loop-IsWhole fuel index offset w
      ∙ ap (λ r. ((index, offset + header_bytes, u32_at offset bytes) ∷ r.0, r.1))
          (Scans-scan_loop fuel run (omega arith))

  -- On any bytes, damaged ones included, the loop of a scan ends, and the scan of a segment is its
  -- one run from the start of the bytes: it passes over whole records with the right checksum, and
  -- ends at the first offset where none stands.
  pub scan_segment_iff :
      (start end : ℕ) (locs : List (ℕ × ℕ × ℕ))
      → (scan_segment crc32c start bytes ≡ (locs, end)) ↔ Scans start 0 locs end
  unfolding scan_segment
  scan_segment_iff start end locs = (
    (λ h.
        subst (λ r. Scans start 0 r.0 r.1) h
          (scan_loop-Scans (suc (length bytes)) start 0 (omega arith))),
    λ run. Scans-scan_loop (suc (length bytes)) run (omega arith),
  )
