-- ===== src/Cluster/Network/Service.antt =====
-- The service that a node's peers call, `RaftServer` of crates/cluster/src/network.rs. What openraft
-- answers is a parameter; a failure of it is `none`. The stream of chunks and the writes to the file
-- that openraft begins do not fail.
use lumen.Base.{Bool, if◌then◌else◌, err, List, Option, Result, ok, ok_or, map_err, ◌>>=◌}
use lumen.Core.Log.Frame.{Bytes}
use lumen.Proto.Openraft.{
  MembershipApi, Vote, SnapshotMeta, VoteRequest, VoteResponse, AppendEntriesRequest,
  AppendEntriesResponse, SnapshotResponse,
}
use lumen.Proto.Conversions.{
  vote_request_try_from, vote_response_into, append_request_try_from, append_response_into,
  snapshot_response_into,
}
use lumen.Proto.Wire as Wire
use lumen.Cluster.Network.{Status, conversion, raft_failed, received_snapshot}

pub record RaftNode (M : Type 0) : Type 0 where
  pub vote : VoteRequest → Option VoteResponse
  pub append_entries : AppendEntriesRequest M → Option AppendEntriesResponse
  -- Whether there is a file to receive a snapshot in.
  pub begin_receiving_snapshot : Bool
  pub install_full_snapshot : Vote → SnapshotMeta M → Bytes → Option SnapshotResponse

module _ (api : MembershipApi) (raft : RaftNode api.Membership) where
  unfoldable pub vote : Wire.VoteRequest → Result Status Wire.VoteResponse
  unfolding vote_request_try_from vote_response_into
  vote request = do
    rpc ← map_err conversion (vote_request_try_from request)
    response ← ok_or (raft.vote rpc) raft_failed
    ok (vote_response_into response)

  unfoldable pub append_entries :
      Wire.AppendEntriesRequest → Result Status Wire.AppendEntriesResponse
  unfolding append_request_try_from append_response_into
  append_entries request = do
    rpc ← map_err conversion (append_request_try_from api request)
    response ← ok_or (raft.append_entries rpc) raft_failed
    ok (append_response_into response)

  unfoldable pub receive_snapshot : List Wire.SnapshotRequest → Result Status Wire.SnapshotResponse
  unfolding received_snapshot snapshot_response_into
  receive_snapshot chunks = do
    received ← received_snapshot api chunks
    response ← ok_or (raft.install_full_snapshot received.0 received.1 received.2) raft_failed
    ok (snapshot_response_into response)

  unfoldable pub snapshot : List Wire.SnapshotRequest → Result Status Wire.SnapshotResponse
  unfolding receive_snapshot
  snapshot chunks =
      if raft.begin_receiving_snapshot then receive_snapshot chunks else err raft_failed
