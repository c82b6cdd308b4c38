-- ===== src/Cluster/Network/Served.antt =====
-- A call of one node that the service of another one answers (crates/cluster/src/network.rs).
use lumen.Base.{
  Bool, true, if◌then◌else◌, ℕ, suc, ◌<◌, false, Option, none, some, List, ◌∷◌, Result, ok, err,
  map_err, ok_or, length, ◌>>=◌, ◌≡◌, refl, ap, ◌∙◌, ◌⊎◌, inl, inr, arith,
}
use lumen.Core.Log.Frame.{Bytes}
use lumen.Proto.Openraft.{
  MembershipApi, Vote, SnapshotMeta, VoteRequest, AppendEntriesRequest, SnapshotResponse,
}
use lumen.Proto.Conversions.{
  Converted, vote_into, snapshot_meta_into, vote_request_into, vote_response_into,
  vote_response_try_from, append_request_into, append_response_into, append_response_try_from,
  snapshot_response_into, snapshot_response_try_from,
}
use lumen.Proto.RoundTrip.{
  vote_request_round_trip, vote_response_round_trip, append_request_round_trip,
  append_response_round_trip, snapshot_response_round_trip,
}
use lumen.Proto.Wire as Wire
use lumen.Cluster.Network.{Reads, chunk_stream, code_of, internal, is_transport, raft_failed}
use lumen.Cluster.Network.Service.{RaftNode}
use lumen.Cluster.Network.Service as Service
use lumen.Cluster.Network.Transfer.{received_snapshot-chunk_stream}
use lumen.Cluster.Network.Calls.{
  Transport, Client, RpcError, network_status, channel, answered, rpc_status, vote, append_entries,
  full_snapshot, chunk_size_of,
}

module _ (transport : Transport) (api : MembershipApi) (raft : RaftNode api.Membership) where
  open transport use {Channel}
  open api use {Membership}

  -- What is called over the channel is answered by the service of the node.
  abbrev pub Delivers : Channel → Type 0
  Delivers ch =
      ((w : Wire.VoteRequest) → transport.vote ch w ≡ map_err code_of (Service.vote api raft w))
      × ((w : Wire.AppendEntriesRequest)
          → transport.append_entries ch w ≡ map_err code_of (Service.append_entries api raft w))
      × ((chunks : List Wire.SnapshotRequest)
          → transport.snapshot ch chunks ≡ map_err code_of (Service.snapshot api raft chunks))

  -- The client has the channel, or opens it.
  abbrev pub IsFor : Client Channel → Channel → Type 0
  IsFor client ch =
      (client.channel ≡ some ch)
      ⊎ ((client.channel ≡ none) × (transport.connect client.node.rpc_addr ≡ some ch))

  -- What openraft makes of a snapshot that is received.
  abbrev pub install : Vote → SnapshotMeta Membership → Bytes → Option SnapshotResponse
  install v meta file =
      if raft.begin_receiving_snapshot then raft.install_full_snapshot v meta file else none

  -- What the caller has of an answer of openraft's.
  abbrev pub answer_of : {A : Type 0} → Option A → Result RpcError A
  answer_of none = err (network_status internal)
  answer_of (some response) = ok response

  channel-IsFor :
      (client : Client Channel) (ch : Channel)
      → IsFor client ch
      → channel transport client ≡ (ok ch, record client { channel = some ch })
  unfolding channel
  channel-IsFor client ch (inl h) =
      rw (h, channel) (ap (λ x. (ok ch, record client { channel = x })) h)
  channel-IsFor client ch (inr (h, e)) = rw (h, channel, e) refl

  -- An answer of openraft's that the service sends is the one that the caller has.
  answered_served :
      {A W : Type 0} (convert : W → Converted A) (into : A → W)
      → ((a : A) → convert (into a) ≡ ok a)
      → (o : Option A) (client : Client Channel)
      → answered transport convert
          (map_err code_of (ok_or o raft_failed >>= λ response. ok (into response)))
          client
        ≡ (answer_of o, client)
  unfolding answered rpc_status is_transport code_of
  answered_served convert into round none client = refl
  answered_served convert into round (some r) client = rw (round r) refl

  vote_served :
      (rpc : VoteRequest)
      → Service.vote api raft (vote_request_into rpc)
        ≡ (ok_or (raft.vote rpc) raft_failed >>= λ response. ok (vote_response_into response))
  unfolding Service.vote
  vote_served rpc = rw (vote_request_round_trip rpc, Service.vote) refl

  append_entries_served :
      (rpc : AppendEntriesRequest Membership)
      → Service.append_entries api raft (append_request_into api rpc) ≡ (
          ok_or (raft.append_entries rpc) raft_failed >>= λ response.
          ok (append_response_into response))
  unfolding Service.append_entries
  append_entries_served rpc = rw (append_request_round_trip api rpc, Service.append_entries) refl

  guarded :
      {A W : Type 0} (into : A → W) (begun : Bool) (o : Option A)
      → (if begun
          then (ok_or o raft_failed >>= λ response. ok (into response))
          else err raft_failed)
        ≡ (ok_or (if begun then o else none) raft_failed >>= λ response. ok (into response))
  guarded into true o = refl
  guarded into false o = refl

  snapshot_served :
      (reads : Reads) (size : ℕ) (v : Vote) (meta : SnapshotMeta Membership) (b : ℕ) (file : Bytes)
      → 0 < size
      → Service.snapshot api raft (
          chunk_stream reads
            (suc (length (b ∷ file)))
            (b ∷ file)
            (vote_into v)
            (snapshot_meta_into api meta)
            size)
        ≡ (ok_or (install v meta (b ∷ file)) raft_failed >>= λ response.
            ok (snapshot_response_into response))
  unfolding Service.snapshot Service.receive_snapshot
  snapshot_served reads size v meta b file positive =
      rw
        (
          Service.snapshot,
          Service.receive_snapshot,
          received_snapshot-chunk_stream api reads v meta size positive (suc (length (b ∷ file))) b
              file (omega arith),
        )
        (guarded snapshot_response_into raft.begin_receiving_snapshot
          (raft.install_full_snapshot v meta (b ∷ file)))

  size_positive : (size : Option ℕ) → 0 < chunk_size_of transport api size
  size_positive none = omega arith
  size_positive (some n) = omega arith

  -- A node whose calls the service of a peer answers has what openraft answers there, and keeps the
  -- channel: the response to a vote, to entries and to a snapshot that is not empty, or an internal
  -- status where openraft fails there or has no file to receive a snapshot in.
  pub calls-served :
      (client : Client Channel) (ch : Channel) (reads : Reads) (size : Option ℕ)
      (ballot : VoteRequest) (entries : AppendEntriesRequest Membership) (v : Vote)
      (meta : SnapshotMeta Membership) (b : ℕ) (file : Bytes)
      → IsFor client ch
      → Delivers ch
      → (vote transport ballot client
          ≡ (answer_of (raft.vote ballot), record client { channel = some ch }))
        × (append_entries transport api entries client
            ≡ (answer_of (raft.append_entries entries), record client { channel = some ch }))
        × (full_snapshot transport api reads false size v meta (b ∷ file) client
            ≡ (answer_of (install v meta (b ∷ file)), record client { channel = some ch }))
  unfolding vote append_entries full_snapshot
  calls-served client ch reads size ballot entries v meta b file is_for h =
      let open_channel = channel-IsFor client ch is_for in
      let kept : Client Channel = record client { channel = some ch } in
      (
        rw (open_channel, vote)
            (ap (λ r. answered transport vote_response_try_from r kept)
                (h.0 (vote_request_into ballot) ∙ ap (map_err code_of) (vote_served ballot))
              ∙ answered_served vote_response_try_from vote_response_into vote_response_round_trip
                  (raft.vote ballot) kept),
        rw (open_channel, append_entries)
            (ap (λ r. answered transport append_response_try_from r kept)
                (h.1 (append_request_into api entries)
                  ∙ ap (map_err code_of) (append_entries_served entries))
              ∙ answered_served append_response_try_from append_response_into
                  append_response_round_trip (raft.append_entries entries) kept),
        rw (open_channel, full_snapshot)
            (ap (λ r. answered transport snapshot_response_try_from r kept)
                (h.2 _
                  ∙ ap (map_err code_of) (
                      snapshot_served reads (chunk_size_of transport api size) v meta b file
                        (size_positive size)))
              ∙ answered_served snapshot_response_try_from snapshot_response_into
                  snapshot_response_round_trip (install v meta (b ∷ file)) kept),
      )
