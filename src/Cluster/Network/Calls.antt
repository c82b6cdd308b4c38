-- ===== src/Cluster/Network/Calls.antt =====
-- The calls of a node on its peers, `Client` of crates/cluster/src/network.rs. tonic is a parameter:
-- how a channel is opened, and what a call over it answers. Reads of a snapshot's file do not fail.
use lumen.Base.{
  suc, max, Text, Bool, Option, none, some, List, Result, ok, err, length, if◌then◌else◌, ℕ, ◌*◌,
}
use lumen.Core.Log.Frame.{Bytes}
use lumen.Proto.Openraft.{
  MembershipApi, Vote, SnapshotMeta, VoteRequest, VoteResponse, AppendEntriesRequest,
  AppendEntriesResponse, SnapshotResponse,
}
use lumen.Proto.Conversions.{
  ConversionError, Converted, vote_into, snapshot_meta_into, vote_request_into,
  vote_response_try_from, append_request_into, append_response_try_from, snapshot_response_try_from,
}
use lumen.Proto.Wire.{Node}
use lumen.Proto.Wire as Wire
use lumen.Cluster.Network.{Code, is_transport, Reads, chunk_stream}

pub record Transport : Type 1 where
  pub Channel : Type 0
  pub connect : Text → Option Channel
  pub vote : Channel → Wire.VoteRequest → Result Code Wire.VoteResponse
  pub append_entries : Channel → Wire.AppendEntriesRequest → Result Code Wire.AppendEntriesResponse
  pub snapshot : Channel → List Wire.SnapshotRequest → Result Code Wire.SnapshotResponse

pub record Client (Channel : Type 0) : Type 0 where
  pub node : Node
  pub channel : Option Channel

pub data RpcError : Type 0 where
  unreachable : RpcError
  network_status : Code → RpcError
  network_conversion : ConversionError → RpcError
  closed : RpcError

abbrev pub default_chunk_size : ℕ
default_chunk_size = 1024 * 1024

module _ (transport : Transport) where
  open transport use {Channel}

  unfoldable pub channel : Client Channel → Result RpcError Channel × Client Channel
  channel client = elim client.channel [
    | some ch ↦ (ok ch, client)
    | none ↦ elim (transport.connect client.node.rpc_addr) [
      | none ↦ (err unreachable, client)
      | some ch ↦ (ok ch, record client { channel = some ch })
    ]
  ]

  -- A failure of the transport drops the channel, so that the next call opens another one.
  unfoldable pub rpc_status : Code → Client Channel → RpcError × Client Channel
  unfolding is_transport
  rpc_status code client =
      if is_transport code
      then (unreachable, record client { channel = none })
      else (network_status code, client)

  -- What the calls do with the answer that tonic has.
  unfoldable pub answered :
      {W A : Type 0}
      → (W → Converted A)
      → Result Code W
      → Client Channel
      → Result RpcError A × Client Channel
  unfolding rpc_status
  answered convert (err code) client = let (e, client') = rpc_status code client in (err e, client')
  answered convert (ok wire) client = elim (convert wire) [
    | err e ↦ (err (network_conversion e), client)
    | ok response ↦ (ok response, client)
  ]

  abbrev pub with_channel :
      {A : Type 0}
      → (Channel → Client Channel → Result RpcError A × Client Channel)
      → Result RpcError Channel × Client Channel
      → Result RpcError A × Client Channel
  with_channel call (err e, client) = (err e, client)
  with_channel call (ok ch, client) = call ch client

  unfoldable pub vote : VoteRequest → Client Channel → Result RpcError VoteResponse × Client Channel
  unfolding channel answered vote_request_into vote_response_try_from
  vote rpc client =
      with_channel
        (λ ch. answered vote_response_try_from (transport.vote ch (vote_request_into rpc)))
        (channel client)

  module _ (api : MembershipApi) where
    open api use {Membership}

    unfoldable pub append_entries :
        AppendEntriesRequest Membership
        → Client Channel
        → Result RpcError AppendEntriesResponse × Client Channel
    unfolding channel answered append_request_into append_response_try_from
    append_entries rpc client =
        with_channel
          (λ ch.
            answered append_response_try_from
              (transport.append_entries ch (append_request_into api rpc)))
          (channel client)

    abbrev pub chunk_size_of : Option ℕ → ℕ
    chunk_size_of none = max default_chunk_size 1
    chunk_size_of (some size) = max size 1

    -- `cancel` says whether openraft closes the replication before there is an answer.
    unfoldable pub full_snapshot :
        Reads
        → Bool
        → Option ℕ
        → Vote
        → SnapshotMeta Membership
        → Bytes
        → Client Channel
        → Result RpcError SnapshotResponse × Client Channel
    unfolding channel answered chunk_stream vote_into snapshot_meta_into snapshot_response_try_from
    full_snapshot reads cancel size v meta file client =
        with_channel
          (λ ch client'.
            if cancel
            then (err closed, client')
            else answered snapshot_response_try_from
                (transport.snapshot ch (
                  chunk_stream reads (suc (length file)) file (vote_into v)
                    (snapshot_meta_into api meta) (chunk_size_of size)))
                client')
          (channel client)
