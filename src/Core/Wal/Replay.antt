-- ===== src/Core/Wal/Replay.antt =====
-- What crates/core/src/wal.rs writes is what the next open replays.
use lumen.Base.{
  ℕ, suc, ◌+◌, ◌<◌, u64_mod, ◌≡◌, refl, ap, ◌∙◌, List, [], ◌∷◌, map, length, All, arith, ok,
  try_map, bind_cong, bind_ok, ◌>>=◌,
}
use lumen.Core.Error.{Fallible}
use lumen.Core.Log.{Disk, SegmentedLog, open_with_segment_max, read_all}
use lumen.Core.Log as Log
use lumen.Core.Log.Frame.{Bytes}
use lumen.Core.Log.Frame.Scan.{Fits}
use lumen.Core.Log.Segments.{numbered}
use lumen.Core.Log.Durability.{append_each, empty_log, session_round_trip}
use lumen.Core.Wal.{Externals, DecodesBack, default_segment_max, decode_record, open_wal, append}
use lumen.Proto.Command as Proto

-- The entries have the numbers from `seq` on.
unfoldable pub IsNumbered : ℕ → List Proto.WalEntry → Type 0
IsNumbered seq [] = Unit
IsNumbered seq (e ∷ es) = (e.seq ≡ seq) × IsNumbered (seq + 1) es

module _ (ext : Externals) where
  -- `for entry in entries { wal.append(&entry)? }`
  pub append_entries : List Proto.WalEntry → SegmentedLog → Fallible SegmentedLog
  append_entries [] wal = ok wal
  append_entries (e ∷ es) wal = do wal' ← append ext e wal; append_entries es wal'

  append_entries-append_each :
      (seq : ℕ) (es : List Proto.WalEntry) (wal : SegmentedLog)
      → IsNumbered seq es
      → append_entries es wal ≡ append_each ext.crc32c seq (map ext.encode es) wal
  unfolding append_entries append_each append IsNumbered
  append_entries-append_each seq [] wal h = refl
  append_entries-append_each seq (e ∷ es) wal h =
      bind_cong (Log.append ext.crc32c e.seq (ext.encode e) wal) _ _
        (λ w. append_entries-append_each (seq + 1) es w h.1)
      ∙ ap
          (λ s.
            Log.append ext.crc32c s (ext.encode e) wal
            >>= append_each ext.crc32c (seq + 1) (map ext.encode es))
          h.0

  decode_numbered :
      (seq : ℕ) (es : List Proto.WalEntry)
      → All (DecodesBack ext) es
      → try_map (decode_record ext) (numbered seq (map ext.encode es)) ≡ ok es
  unfolding try_map decode_record DecodesBack
  decode_numbered seq [] d = refl
  decode_numbered seq (e ∷ es) d = rw (d.0, decode_numbered (seq + 1) es d.1) refl

  opened_entries :
      (disk : Disk) (records : List (ℕ × Bytes)) (es : List Proto.WalEntry)
      → (open_with_segment_max ext.crc32c disk default_segment_max >>= read_all) ≡ ok records
      → try_map (decode_record ext) records ≡ ok es
      → (open_wal ext disk >>= λ r. ok r.1) ≡ ok es
  unfolding open_wal
  opened_entries disk records es h d = ground arith

  length-encoded : (es : List Proto.WalEntry) → length (map ext.encode es) ≡ length es
  length-encoded [] = refl
  length-encoded (e ∷ es) = ap suc (length-encoded es)

  -- Entries with consecutive numbers below 2^64, of fewer than 2^32 bytes each and decoded as they
  -- were encoded, that are appended to the log of an empty directory, are what a restart on its
  -- files reads, each one and in their order.
  pub wal_round_trip :
      (e : Proto.WalEntry) (es : List Proto.WalEntry)
      → IsNumbered e.seq (e ∷ es)
      → All (DecodesBack ext) (e ∷ es)
      → All Fits (map ext.encode (e ∷ es))
      → e.seq + length (e ∷ es) < u64_mod
      → (do
        wal ← append_entries (e ∷ es) (empty_log default_segment_max)
        reopened ← open_wal ext wal.disk
        ok reopened.1)
        ≡ ok (e ∷ es)
  wal_round_trip e es h d fits bound =
      let payloads = map ext.encode es in
      rw (append_entries-append_each e.seq (e ∷ es) (empty_log default_segment_max) h) (
        bind_ok
          (append_each ext.crc32c e.seq (map ext.encode (e ∷ es)) (empty_log default_segment_max)) _
          _ (numbered e.seq (map ext.encode (e ∷ es))) (e ∷ es)
          (session_round_trip ext.crc32c ext.crc_u32 default_segment_max e.seq (ext.encode e)
            payloads fits (omega (arith, length-encoded es)) (omega arith))
          λ log opened.
            opened_entries log.disk _ (e ∷ es) opened (decode_numbered e.seq (e ∷ es) d))
