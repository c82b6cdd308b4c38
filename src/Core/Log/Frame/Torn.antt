-- ===== src/Core/Log/Frame/Torn.antt =====
-- What a crash leaves of a frame is a torn tail, and the scan's fuel is enough for any bytes.
use lumen.Base.{
  ℕ, zero, suc, ◌+◌, ◌%◌, ◌≤◌, ◌<◌, u64_mod, ◌≡◌, refl, ap, inl, inr, [], ◌∷◌, length, take, ltb,
  arith, Bool-cases, ltb→lt, length-take_le, not_le→leb,
}
use lumen.Core.Log.Frame.{Bytes, header_bytes, u32_at, frame, scan_loop}
use lumen.Core.Log.Frame.Scan.{IsTorn, Fits, length-frame, u32_at_end}

take-take : (k : ℕ) {n : ℕ} (xs : Bytes) → k ≤ n → take k (take n xs) ≡ take k xs
take-take zero xs h = refl
take-take (suc k) {n = zero} xs h = absurd (omega arith)
take-take (suc k) {n = suc n} [] h = refl
take-take (suc k) {n = suc n} (x ∷ xs) h = ap (λ l. x ∷ l) (take-take k xs (omega arith))

module _ (crc32c : Bytes → ℕ) where
  first_length : (p : Bytes) → Fits p → u32_at 0 (frame crc32c p) ≡ length p
  unfolding frame
  first_length p fits = u32_at_end [] (length p) _ fits

  first_take : (n : ℕ) (bs : Bytes) → 4 ≤ n → u32_at 0 (take n bs) ≡ u32_at 0 bs
  unfolding u32_at
  first_take n bs h = rw (take-take 4 bs h)

  -- Of a frame whose last bytes were not written, nothing is read.
  pub take-frame-IsTorn :
      (p : Bytes) (n : ℕ)
      → Fits p
      → n < length (frame crc32c p)
      → IsTorn crc32c (take n (frame crc32c p))
  take-frame-IsTorn p n fits h =
      let e : length (take n (frame crc32c p)) ≡ n =
        length-take_le n (frame crc32c p) (omega arith) in
      elim (Bool-cases (ltb n 8)) [
        | inl short ↦ inl (omega (arith, ltb→lt n 8 short))
        | inr long ↦
            let long' : 8 ≤ n = ground arith in
            inr (
              inl (
                omega (
                  arith,
                  first_take n (frame crc32c p) (omega arith),
                  first_length p fits,
                  length-frame crc32c p,
                )))
      ]

  pub nil-IsTorn : IsTorn crc32c []
  nil-IsTorn = inl (omega arith)

  -- Past the fuel that reaches the end of the bytes, more fuel changes nothing.
  scan_loop-fuel :
      (fuel : ℕ) (bytes : Bytes) (index offset : ℕ)
      → length bytes < offset + fuel
      → scan_loop crc32c (suc fuel) bytes index offset ≡ scan_loop crc32c fuel bytes index offset
  unfolding scan_loop
  scan_loop-fuel zero bytes index offset h =
      rw (not_le→leb (offset + 8) (length bytes) (omega arith))
  scan_loop-fuel (suc fuel) bytes index offset h = rw (
      scan_loop-fuel fuel bytes ((index + 1) % u64_mod)
        (offset + header_bytes + u32_at offset bytes) (omega arith))
