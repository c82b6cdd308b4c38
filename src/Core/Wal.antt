-- ===== src/Core/Wal.antt =====
-- The write-ahead log of the catalog, crates/core/src/wal.rs: a segmented log of encoded entries.
pub mod Replay
use lumen.Base.{
  ℕ, ◌*◌, u32_mod, ◌<◌, ◌≡◌, Text, Option, some, List, Result, ok, err, ok_or, try_map, ◌>>=◌,
}
use lumen.Core.Error.{Fallible, recovery, corrupt_wal_record}
use lumen.Core.Log.{Disk, SegmentedLog, open_with_segment_max, read_all}
use lumen.Core.Log.Removal.{purge_through}
use lumen.Core.Log as Log
use lumen.Core.Log.Frame.{Bytes}
use lumen.Proto.Command as Proto

-- The uuid, prost and crc32c crates. A `Uuid` is a number of 128 bits.
pub record Externals : Type 0 where
  pub parse_uuid : Text → Option ℕ
  pub uuid_text : ℕ → Text
  pub encode : Proto.WalEntry → Bytes
  pub decode : Bytes → Option Proto.WalEntry
  pub encode_snapshot : Proto.CatalogSnapshot → Bytes
  pub decode_snapshot : Bytes → Option Proto.CatalogSnapshot
  pub crc32c : Bytes → ℕ
  pub crc_u32 : (b : Bytes) → crc32c b < u32_mod
  pub uuid_round_trip : (u : ℕ) → parse_uuid (uuid_text u) ≡ some u

-- The bytes of the entry are decoded as the entry. This holds of what prost can write: numbers of
-- 64 bits and texts that are UTF-8.
unfoldable pub DecodesBack : Externals → Proto.WalEntry → Type 0
DecodesBack ext e = ext.decode (ext.encode e) ≡ some e

-- The same of the catalog's snapshot.
unfoldable pub DecodesSnapshot : Externals → Proto.CatalogSnapshot → Type 0
DecodesSnapshot ext s = ext.decode_snapshot (ext.encode_snapshot s) ≡ some s

-- `DEFAULT_SEGMENT_MAX_BYTES`
abbrev pub default_segment_max : ℕ
default_segment_max = 64 * 1024 * 1024

module _ (ext : Externals) where
  unfoldable pub decode_record : ℕ × Bytes → Fallible Proto.WalEntry
  decode_record (index, bytes) = ok_or (ext.decode bytes) (recovery corrupt_wal_record)

  unfoldable pub open_wal : Disk → Fallible (SegmentedLog × List Proto.WalEntry)
  unfolding open_with_segment_max read_all decode_record
  open_wal disk = do
    log ← open_with_segment_max ext.crc32c disk default_segment_max
    records ← read_all log
    entries ← try_map decode_record records
    ok (log, entries)

  unfoldable pub append : Proto.WalEntry → SegmentedLog → Fallible SegmentedLog
  append entry wal = Log.append ext.crc32c entry.seq (ext.encode entry) wal

unfoldable pub trim : ℕ → SegmentedLog → Fallible SegmentedLog
unfolding purge_through
trim floor wal = purge_through floor wal
