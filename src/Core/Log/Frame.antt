-- ===== src/Core/Log/Frame.antt =====
-- The framing of a record, `[len: u32][crc32c: u32][payload]`, and the scan of a segment's bytes
-- (`append` and `scan_segment` of crates/core/src/log.rs).
pub mod Scan
pub mod Torn
pub mod Scanned
use lumen.Base.{
  ℕ, zero, suc, ◌+◌, ◌*◌, ◌/◌, ◌%◌, ◌^◌, u64_mod, List, [], ◌∷◌, ◌++◌, length, take, drop, ltb, leb,
  ◌==◌, if◌then◌else◌,
}

abbrev pub Bytes : Type 0
Bytes = List ℕ

abbrev pub header_bytes : ℕ
header_bytes = 8

unfoldable pub to_le_bytes : ℕ → Bytes
to_le_bytes n = n % 256 ∷ n / 2 ^ 8 % 256 ∷ n / 2 ^ 16 % 256 ∷ n / 2 ^ 24 % 256 ∷ []

-- Of four bytes.
unfoldable pub from_le_bytes : Bytes → ℕ
from_le_bytes [] = 0
from_le_bytes (b ∷ bs) = b + 256 * from_le_bytes bs

unfoldable pub u32_at : ℕ → Bytes → ℕ
unfolding from_le_bytes
u32_at offset bytes = from_le_bytes (take 4 (drop offset bytes))

module _ (crc32c : Bytes → ℕ) where
  unfoldable pub frame : Bytes → Bytes
  unfolding to_le_bytes
  frame payload = to_le_bytes (length payload) ++ (to_le_bytes (crc32c payload) ++ payload)

  -- The `while` loop of `scan_segment`, on fuel: the locations from `offset` on, and the offset at
  -- which the loop ends.
  unfoldable pub scan_loop : ℕ → Bytes → ℕ → ℕ → List (ℕ × ℕ × ℕ) × ℕ
  unfolding u32_at
  scan_loop zero bytes index offset = ([], offset)
  scan_loop (suc fuel) bytes index offset =
      let len = u32_at offset bytes in
      let crc = u32_at (offset + 4) bytes in
      let body = offset + header_bytes in
      let rest = scan_loop fuel bytes ((index + 1) % u64_mod) (body + len) in
      if leb (offset + header_bytes) (length bytes)
      then (if ltb (length bytes) (body + len)
          then ([], offset)
          else if crc32c (take len (drop body bytes)) == crc
          then ((index, body, len) ∷ rest.0, rest.1)
          else ([], offset))
      else ([], offset)

  unfoldable pub scan_segment : ℕ → Bytes → List (ℕ × ℕ × ℕ) × ℕ
  unfolding scan_loop
  scan_segment start bytes = scan_loop (suc (length bytes)) bytes start 0
