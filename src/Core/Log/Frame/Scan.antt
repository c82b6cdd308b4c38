-- ===== src/Core/Log/Frame/Scan.antt =====
-- The scan of a segment reads back the frames that `append` wrote, and stops at a torn tail.
use lumen.Base.{
  ℕ, zero, suc, ◌+◌, ◌%◌, ◌≤◌, ◌<◌, u32_mod, u64_mod, ◌≡◌, ◌≢◌, refl, sym, ◌⊎◌, List, [], ◌∷◌, ◌++◌,
  append_assoc, length, take, drop, All, arith, length-append, take-append, drop-append, drop_add,
  le→leb, not_lt→ltb, ==_refl,
}
use lumen.Core.Log.Frame.{
  Bytes, header_bytes, to_le_bytes, from_le_bytes, u32_at, frame, scan_loop, scan_segment,
}

-- `u32::from_le_bytes` undoes `to_le_bytes`.
from_le_bytes-to_le_bytes : (n : ℕ) → n < u32_mod → from_le_bytes (to_le_bytes n) ≡ n
unfolding from_le_bytes to_le_bytes
from_le_bytes-to_le_bytes n h = omega arith

take-to_le_bytes : (n : ℕ) (rest : Bytes) → take 4 (to_le_bytes n ++ rest) ≡ to_le_bytes n
unfolding to_le_bytes
take-to_le_bytes n rest = refl

drop-to_le_bytes : (n : ℕ) (rest : Bytes) → drop 4 (to_le_bytes n ++ rest) ≡ rest
unfolding to_le_bytes
drop-to_le_bytes n rest = refl

-- A number that stands at the end of `pre`.
pub u32_at_end :
    (pre : Bytes) (n : ℕ) (rest : Bytes)
    → n < u32_mod
    → u32_at (length pre) (pre ++ (to_le_bytes n ++ rest)) ≡ n
unfolding u32_at
u32_at_end pre n rest h =
    rw (drop-append pre (to_le_bytes n ++ rest), take-to_le_bytes n rest)
      (from_le_bytes-to_le_bytes n h)

u32_at_add4 :
    (offset : ℕ) (bytes : Bytes) → u32_at (offset + 4) bytes ≡ u32_at 4 (drop offset bytes)
unfolding u32_at
u32_at_add4 offset bytes = rw (drop_add offset 4 bytes)

u32_at_shift : (pre rest : Bytes) → u32_at (length pre) (pre ++ rest) ≡ u32_at 0 rest
unfolding u32_at
u32_at_shift pre rest = rw (drop-append pre rest)

u32_at_second :
    (m n : ℕ) (rest : Bytes) → n < u32_mod → u32_at 4 (to_le_bytes m ++ (to_le_bytes n ++ rest)) ≡ n
unfolding u32_at
u32_at_second m n rest h =
    rw (drop-to_le_bytes m (to_le_bytes n ++ rest), take-to_le_bytes n rest)
      (from_le_bytes-to_le_bytes n h)

length-to_le_bytes : (n : ℕ) → length (to_le_bytes n) ≡ 4
unfolding to_le_bytes
length-to_le_bytes n = refl

drop_eight : (m n : ℕ) (rest : Bytes) → drop 8 (to_le_bytes m ++ (to_le_bytes n ++ rest)) ≡ rest
unfolding to_le_bytes
drop_eight m n rest = refl

-- Where the frames of the payloads stand.
abbrev pub locs_of : ℕ → ℕ → List Bytes → List (ℕ × ℕ × ℕ)
locs_of index offset [] = []
locs_of index offset (p ∷ ps) =
    (index, offset + header_bytes, length p)
    ∷ locs_of (index + 1) (offset + header_bytes + length p) ps

-- A payload that `append` accepts.
abbrev pub Fits : Bytes → Type 0
Fits p = length p < u32_mod

module _ (crc32c : Bytes → ℕ) where
  pub length-frame : (p : Bytes) → length (frame crc32c p) ≡ length p + 8
  unfolding frame to_le_bytes
  length-frame p = omega arith

  -- The frames of a list of payloads, one behind the other.
  abbrev pub frames : List Bytes → Bytes
  frames [] = []
  frames (p ∷ ps) = frame crc32c p ++ frames ps

  pub frames-append : (ps qs : List Bytes) → frames (ps ++ qs) ≡ frames ps ++ frames qs
  frames-append [] qs = refl
  frames-append (p ∷ ps) qs =
      rw (frames-append ps qs) (sym (append_assoc (frame crc32c p) (frames ps) (frames qs)))

  length_le_frames : (ps : List Bytes) → length ps ≤ length (frames ps)
  length_le_frames [] = omega arith
  length_le_frames (p ∷ ps) =
      omega (arith, length-append (frame crc32c p) (frames ps), length-frame p, length_le_frames ps)

  -- The bytes hold no whole frame with a matching checksum at their start.
  abbrev pub IsTorn : Bytes → Type 0
  IsTorn tail =
      (length tail < header_bytes)
      ⊎ (length tail < header_bytes + u32_at 0 tail)
      ⊎ (crc32c (take (u32_at 0 tail) (drop 8 tail)) ≢ u32_at 4 tail)

  -- At a torn tail the loop ends.
  scan_loop_torn :
      (fuel : ℕ) (pre tail : Bytes) (index : ℕ)
      → IsTorn tail
      → scan_loop crc32c fuel (pre ++ tail) index (length pre) ≡ ([], length pre)
  unfolding scan_loop
  scan_loop_torn zero pre tail index t = refl
  scan_loop_torn (suc fuel) pre tail index t = ground (
    arith,
    length-append pre tail,
    u32_at_shift pre tail,
    u32_at_add4 (length pre) (pre ++ tail),
    drop_add (length pre) 8 (pre ++ tail),
    drop-append pre tail,
  )

  module _ (crc_u32 : (b : Bytes) → crc32c b < u32_mod) where
    frame_split :
        (p rest : Bytes)
        → frame crc32c p ++ rest ≡ to_le_bytes (length p) ++ (to_le_bytes (crc32c p) ++ (p ++ rest))
    unfolding frame to_le_bytes
    frame_split p rest = refl

    -- At a whole frame the loop records its location and goes on behind it.
    scan_loop-frame :
        (fuel : ℕ) (pre p rest : Bytes) (index : ℕ)
        → Fits p
        → scan_loop crc32c (suc fuel) (pre ++ (frame crc32c p ++ rest)) index (length pre) ≡ (
            let r =
              scan_loop crc32c fuel
                (pre ++ (frame crc32c p ++ rest))
                ((index + 1) % u64_mod)
                (length pre + header_bytes + length p) in
            ((index, length pre + header_bytes, length p) ∷ r.0, r.1))
    unfolding scan_loop
    scan_loop-frame fuel pre p rest index fits =
        let bs = pre ++ (frame crc32c p ++ rest) in
        let e0 : u32_at (length pre) bs ≡ length p =
          rw (frame_split p rest) (u32_at_end pre (length p) _ fits) in
        let e1 : u32_at (length pre + 4) bs ≡ crc32c p =
          rw
            (
              u32_at_add4 (length pre) bs,
              drop-append pre (frame crc32c p ++ rest),
              frame_split p rest,
            )
            (u32_at_second (length p) (crc32c p) (p ++ rest) (crc_u32 p)) in
        let e2 : take (length p) (drop (length pre + 8) bs) ≡ p =
          rw
            (
              drop_add (length pre) 8 bs,
              drop-append pre (frame crc32c p ++ rest),
              frame_split p rest,
              drop_eight (length p) (crc32c p) (p ++ rest),
            )
            (take-append p rest) in
        let e3 : length bs ≡ length pre + (length p + 8 + length rest) = omega (
          arith,
          length-append pre (frame crc32c p ++ rest),
          length-append (frame crc32c p) rest,
          length-frame p,
        ) in
        rw (
          e0,
          e1,
          e2,
          le→leb (length pre + 8) (length bs) (omega arith),
          not_lt→ltb (length bs) (length pre + 8 + length p) (omega arith),
          ==_refl (crc32c p),
        )

    -- Every frame is found, whatever stands before, and the loop ends where the frames do.
    scan_loop-frames :
        (fuel : ℕ) (pre : Bytes) (ps : List Bytes) (tail : Bytes) (index : ℕ)
        → All Fits ps
        → IsTorn tail
        → index + length ps < u64_mod
        → length ps < fuel
        → scan_loop crc32c fuel (pre ++ (frames ps ++ tail)) index (length pre)
          ≡ (locs_of index (length pre) ps, length pre + length (frames ps))
    scan_loop-frames fuel pre [] tail index fits t bound enough =
        let e : length pre + 0 ≡ length pre = omega arith in
        rw e (scan_loop_torn fuel pre tail index t)
    scan_loop-frames zero pre (p ∷ ps) tail index fits t bound enough = absurd (omega arith)
    scan_loop-frames (suc fuel) pre (p ∷ ps) tail index fits t bound enough =
        let f = frame crc32c p in
        let e0 : (f ++ frames ps) ++ tail ≡ f ++ (frames ps ++ tail) =
          append_assoc f (frames ps) tail in
        let e1 : (index + 1) % u64_mod ≡ index + 1 = omega arith in
        let e2 : length pre + header_bytes + length p ≡ length (pre ++ f) =
          omega (arith, length-append pre f, length-frame p) in
        let e3 : pre ++ (f ++ (frames ps ++ tail)) ≡ (pre ++ f) ++ (frames ps ++ tail) =
          sym (append_assoc pre f (frames ps ++ tail)) in
        let ih =
          scan_loop-frames fuel (pre ++ f) ps tail (index + 1) fits.1 t (omega arith)
            (omega arith) in
        let e4 : length (pre ++ f) + length (frames ps) ≡ length pre + length (f ++ frames ps) =
          omega (arith, length-append pre f, length-append f (frames ps)) in
        rw (e0, scan_loop-frame fuel pre p (frames ps ++ tail) index fits.0, e1, e2, e3, ih, e4)

    -- Scanning the frames of some payloads and then torn bytes finds each record at its offset and
    -- stops at the end of the last whole frame.
    pub scan_segment-frames :
        (start : ℕ) (ps : List Bytes) (tail : Bytes)
        → All Fits ps
        → IsTorn tail
        → start + length ps < u64_mod
        → scan_segment crc32c start (frames ps ++ tail) ≡ (locs_of start 0 ps, length (frames ps))
    unfolding scan_segment
    scan_segment-frames start ps tail fits t bound =
        let e : 0 + length (frames ps) ≡ length (frames ps) = omega arith in
        rw (← e) (
          scan_loop-frames (suc (length (frames ps ++ tail))) [] ps tail start fits t bound
            (omega (arith, length-append (frames ps) tail, length_le_frames ps)))
