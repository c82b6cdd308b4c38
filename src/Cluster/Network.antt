-- ===== src/Cluster/Network.antt =====
-- The transfer of snapshots between nodes, crates/cluster/src/network.rs: `chunk_stream` on the
-- sender's side and the `snapshot` service on the receiver's. How many bytes a read of a file gives
-- is tokio's and the operating system's choice, and a parameter.
pub mod Transfer
pub mod Service
pub mod Calls
pub mod Served
use lumen.Base.{
  ℕ, zero, suc, ◌<◌, ◌≤◌, Text, bytes, Bool, true, false, Option, none, some, List, [], ◌∷◌, ◌++◌,
  length, take, drop, Result, ok, err, ok_or, map_err, ◌>>=◌,
}
use lumen.Core.Log.Frame.{Bytes}
use lumen.Proto.Openraft.{MembershipApi, Vote, SnapshotMeta}
use lumen.Proto.Conversions.{ConversionError, vote_try_from, snapshot_meta_try_from}
use lumen.Proto.Wire as Wire

-- The bytes that `AsyncReadExt::read` puts into a buffer of the size, of those that are left.
pub record Reads : Type 0 where
  pub read_len : ℕ → Bytes → ℕ
  pub read_buffer : (size : ℕ) (file : Bytes) → read_len size file ≤ size
  pub read_left : (size : ℕ) (file : Bytes) → read_len size file ≤ length file
  pub read_some : (size : ℕ) (file : Bytes) → 0 < size → 0 < length file → 0 < read_len size file

-- The codes of a tonic `Status` that the client tells apart.
pub data Code : Type 0 where
  unavailable deadline_exceeded invalid_argument internal other_code : Code

unfoldable pub is_transport : Code → Bool
is_transport unavailable = true
is_transport deadline_exceeded = true
is_transport _ = false

-- The statuses that the service builds.
pub data Status : Type 0 where
  missing_field : Text → Status
  conversion : ConversionError → Status
  empty_stream : Status
  raft_failed : Status

-- `invalid_arg` and `internal`
unfoldable pub code_of : Status → Code
code_of (missing_field field) = invalid_argument
code_of (conversion e) = invalid_argument
code_of empty_stream = invalid_argument
code_of raft_failed = internal

unfoldable pub require : {A : Type 0} → Option A → Text → Result Status A
require opt field = ok_or opt (missing_field field)

module _ (reads : Reads) where
  -- The stream of chunks, on fuel: a chunk has at least one byte.
  unfoldable pub chunk_stream :
      ℕ → Bytes → Wire.Vote → Wire.SnapshotMeta → ℕ → List Wire.SnapshotRequest
  chunk_stream zero file vote meta chunk_size = []
  chunk_stream (suc fuel) file vote meta chunk_size =
      let rest =
        chunk_stream fuel (drop (reads.read_len chunk_size file) file) vote meta chunk_size in
      elim (reads.read_len chunk_size file) [
        | zero ↦ []
        | suc n ↦ record { vote = some vote; meta = some meta; bytes = take (suc n) file } ∷ rest
      ]

module _ (api : MembershipApi) where
  open api use {Membership}

  -- What the service has of a snapshot while it receives it.
  pub record Receiving : Type 0 where
    pub received : Bytes
    pub vote : Option Vote
    pub meta : Option (SnapshotMeta Membership)

  -- The vote and the metadata are those of the first chunk.
  unfoldable pub first_chunk : Wire.SnapshotRequest → Receiving → Result Status Receiving
  unfolding require vote_try_from snapshot_meta_try_from
  first_chunk chunk r = elim r.vote [
    | some vote ↦ ok r
    | none ↦ (do
      wire_vote ← require chunk.vote (bytes "SnapshotRequest.vote")
      vote ← map_err conversion (vote_try_from wire_vote)
      wire_meta ← require chunk.meta (bytes "SnapshotRequest.meta")
      meta ← map_err conversion (snapshot_meta_try_from api wire_meta)
      ok (record r { vote = some vote; meta = some meta }))
  ]

  unfoldable pub receive : List Wire.SnapshotRequest → Receiving → Result Status Receiving
  unfolding first_chunk
  receive [] r = ok r
  receive (chunk ∷ chunks) r = do
    r' ← first_chunk chunk r
    receive chunks (record r' { received = r'.received ++ chunk.bytes })

  -- What `snapshot` hands to openraft's `install_full_snapshot`.
  unfoldable pub received_snapshot :
      List Wire.SnapshotRequest → Result Status (Vote × SnapshotMeta Membership × Bytes)
  unfolding receive
  received_snapshot chunks = do
    r ← receive chunks (record { received = []; vote = none; meta = none })
    vote ← ok_or r.vote empty_stream
    meta ← ok_or r.meta empty_stream
    ok (vote, meta, r.received)
