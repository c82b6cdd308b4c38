-- ===== src/Cluster/LogStore.antt =====
-- The store of the Raft log, crates/cluster/src/log_store.rs. Its directory has the segments of the
-- log and `raft-meta.pb`. The prost and crc32c crates are a parameter.
pub mod Bounds
pub mod Entries
pub mod Restart
use lumen.Base.{
  ℕ, ◌<◌, u32_mod, Option, none, some, List, [], ◌∷◌, Result, ok, err, map_err, transpose, try_map,
  ◌>>=◌, saturating_suc,
}
use lumen.Core.Error.{Error, Fallible}
use lumen.Core.Log.{Disk, SegmentedLog, open_with_segment_max, last_index, read_range}
use lumen.Core.Log.Removal.{truncate_from, purge_through}
use lumen.Core.Log as Log
use lumen.Core.Log.Frame.{Bytes}
use lumen.Core.Wal.{default_segment_max}
use lumen.Proto.Openraft.{MembershipApi, LogId, Vote, Entry}
use lumen.Proto.Conversions.{
  ConversionError, option_map, entry_into, entry_try_from, log_id_into, log_id_try_from, vote_into,
  vote_try_from,
}
use lumen.Proto.Wire as Wire
use lumen.Cluster.Storage.{
  Cause, file_failed, write_vote, engine, conversion, undecodable, missing_record, StorageError,
  read_logs, write_logs, read_vote, Stored,
}

pub record RaftCodec : Type 0 where
  pub encode_entry : Wire.Entry → Bytes
  pub decode_entry : Bytes → Option Wire.Entry
  pub encode_meta : Wire.RaftMeta → Bytes
  pub decode_meta : Bytes → Option Wire.RaftMeta
  pub crc32c : Bytes → ℕ
  pub crc_u32 : (b : Bytes) → crc32c b < u32_mod

pub record Meta : Type 0 where
  pub vote : Option Vote
  pub committed : Option LogId
  pub last_purged : Option LogId

-- The log and the meta in memory, and the bytes of the meta file.
pub record LogStore : Type 0 where
  pub log : SegmentedLog
  pub meta : Meta
  pub meta_file : Option Bytes

pub record LogState : Type 0 where
  pub last_purged_log_id : Option LogId
  pub last_log_id : Option LogId

-- `std::ops::Bound` on `u64`.
pub data Bound : Type 0 where
  included excluded : ℕ → Bound
  unbounded : Bound

unfoldable pub range_from : Bound → ℕ
unfolding saturating_suc
range_from (included s) = s
range_from (excluded s) = saturating_suc s
range_from unbounded = 0

unfoldable pub range_to : Bound → Option ℕ → ℕ
unfolding saturating_suc
range_to (included e) last = saturating_suc e
range_to (excluded e) last = e
range_to unbounded none = 0
range_to unbounded (some l) = saturating_suc l

unfoldable pub concrete_range : Bound × Bound → Option ℕ → ℕ × ℕ
unfolding range_from range_to
concrete_range (start, end) last = (range_from start, range_to end last)

-- How the write of the meta file ends: done, with an error after the rename of the new file over the
-- old one, or with an error before it.
pub data Writing : Type 0 where
  written unsynced unwritten : Writing

-- `Option<raft::…>` of the meta file.
unfoldable pub meta_proto : Meta → Wire.RaftMeta
meta_proto meta = record {
  vote = option_map vote_into meta.vote;
  committed = option_map log_id_into meta.committed;
  last_purged = option_map log_id_into meta.last_purged;
}

module _ (codec : RaftCodec) where
  unfoldable pub load_meta : Option Bytes → Stored Meta
  load_meta none = ok (record { vote = none; committed = none; last_purged = none })
  load_meta (some bytes) = elim (codec.decode_meta bytes) [
    | none ↦ err (read_vote undecodable)
    | some proto ↦ (do
      vote ← map_err (λ e. read_vote (conversion e)) (transpose vote_try_from proto.vote)
      committed ←
          map_err (λ e. read_logs (conversion e)) (transpose log_id_try_from proto.committed)
      last_purged ←
          map_err (λ e. read_logs (conversion e)) (transpose log_id_try_from proto.last_purged)
      ok (record { vote = vote; committed = committed; last_purged = last_purged }))
  ]

  -- The meta in memory is written to the file.
  unfoldable pub persist_meta : Writing → LogStore → Result Cause (Unit {0}) × LogStore
  unfolding meta_proto
  persist_meta written s =
      (ok tt, record s { meta_file = some (codec.encode_meta (meta_proto s.meta)) })
  persist_meta unsynced s =
      (err file_failed, record s { meta_file = some (codec.encode_meta (meta_proto s.meta)) })
  persist_meta unwritten s = (err file_failed, s)

  unfoldable pub purge_to : Option LogId → SegmentedLog → Fallible SegmentedLog
  unfolding purge_through
  purge_to none log = ok log
  purge_to (some purged) log = purge_through purged.index log

  unfoldable pub open_store : Disk → Option Bytes → Stored LogStore
  unfolding open_with_segment_max load_meta purge_to
  open_store disk meta_file = do
    log ←
        map_err (λ e. read_logs (engine e))
          (open_with_segment_max codec.crc32c disk default_segment_max)
    meta ← load_meta meta_file
    log' ← map_err (λ e. write_logs (engine e)) (purge_to meta.last_purged log)
    ok (record { log = log'; meta = meta; meta_file = meta_file })

  unfoldable pub save_vote : Writing → Vote → LogStore → Stored (Unit {0}) × LogStore
  unfolding persist_meta
  save_vote writing vote s =
      let (r, s') = persist_meta writing (record s { meta = record s.meta { vote = some vote } }) in
      (map_err write_vote r, s')

  unfoldable pub read_vote_of : LogStore → Option Vote
  read_vote_of s = s.meta.vote

  unfoldable pub save_committed : Writing → Option LogId → LogStore → Stored (Unit {0}) × LogStore
  unfolding persist_meta
  save_committed writing committed s =
      let (r, s') =
        persist_meta writing (record s { meta = record s.meta { committed = committed } }) in
      (map_err write_logs r, s')

  unfoldable pub read_committed : LogStore → Option LogId
  read_committed s = s.meta.committed

  -- The log after an operation that may fail; a failure leaves the store as it was before it.
  unfoldable pub with_log :
      (SegmentedLog → Fallible SegmentedLog) → LogStore → Stored (Unit {0}) × LogStore
  with_log f s = elim (f s.log) [
    | err e ↦ (err (write_logs (engine e)), s)
    | ok log ↦ (ok tt, record s { log = log })
  ]

  unfoldable pub truncate : LogId → LogStore → Stored (Unit {0}) × LogStore
  unfolding with_log truncate_from
  truncate log_id s = with_log (truncate_from log_id.index) s

  -- A failure to write the meta returns before the log is touched.
  abbrev pub then_purge : LogId → Result Cause (Unit {0}) × LogStore → Stored (Unit {0}) × LogStore
  then_purge log_id (err e, s) = (err (write_logs e), s)
  then_purge log_id (ok u, s) = with_log (purge_through log_id.index) s

  unfoldable pub purge : Writing → LogId → LogStore → Stored (Unit {0}) × LogStore
  unfolding with_log purge_through persist_meta
  purge writing log_id s =
      then_purge log_id
        (persist_meta writing (record s { meta = record s.meta { last_purged = some log_id } }))

  module _ (api : MembershipApi) where
    open api use {Membership}

    -- The `for` loop of `append`: entries before the one that fails stay in the log.
    unfoldable pub append : List (Entry Membership) → LogStore → Stored (Unit {0}) × LogStore
    unfolding entry_into
    append [] s = (ok tt, s)
    append (entry ∷ entries) s =
        elim (Log.append codec.crc32c entry.log_id.index (codec.encode_entry (entry_into api entry))
          s.log) [
            | err e ↦ (err (write_logs (engine e)), s)
            | ok log ↦ append entries (record s { log = log })
          ]

    unfoldable pub decode_entry : Bytes → Stored (Entry Membership)
    unfolding entry_try_from
    decode_entry bytes = elim (codec.decode_entry bytes) [
      | none ↦ err (read_logs undecodable)
      | some proto ↦ map_err (λ e. read_logs (conversion e)) (entry_try_from api proto)
    ]

    -- `none` is the panic of a range that ends before it starts.
    unfoldable pub read_entries : ℕ × ℕ → LogStore → Option (Stored (List (Entry Membership)))
    unfolding read_range try_map decode_entry
    read_entries (from, to) s = elim (read_range from to s.log) [
      | none ↦ none
      | some read ↦ some (do
        records ← map_err (λ e. read_logs (engine e)) read
        try_map (λ r. decode_entry r.1) records)
    ]

    unfoldable pub try_get_log_entries :
        Bound × Bound → LogStore → Option (Stored (List (Entry Membership)))
    unfolding concrete_range last_index read_entries
    try_get_log_entries bounds s = read_entries (concrete_range bounds (last_index s.log.records)) s

    -- The log id of the first record that was read.
    unfoldable pub first_log_id : List (ℕ × Bytes) → Stored LogId
    unfolding decode_entry
    first_log_id [] = err (read_logs missing_record)
    first_log_id ((index, bytes) ∷ records) = do entry ← decode_entry bytes; ok entry.log_id

    unfoldable pub last_log_id : Option ℕ → LogStore → Option (Stored (Option LogId))
    unfolding read_range first_log_id saturating_suc
    last_log_id none s = some (ok s.meta.last_purged)
    last_log_id (some index) s = elim (read_range index (saturating_suc index) s.log) [
      | none ↦ none
      | some read ↦ some (do
        records ← map_err (λ e. read_logs (engine e)) read
        log_id ← first_log_id records
        ok (some log_id))
    ]

    unfoldable pub get_log_state : LogStore → Option (Stored LogState)
    unfolding last_log_id last_index
    get_log_state s = elim (last_log_id (last_index s.log.records) s) [
      | none ↦ none
      | some found ↦ some (do
        last ← found
        ok (record { last_purged_log_id = s.meta.last_purged; last_log_id = last }))
    ]
