-- ===== src/Examples/Messages.antt =====
-- Messages of a cluster of one voter.
use lumen.Base.{ℕ, ◌≡◌, [], ◌∷◌, some, none, ok, true, bytes}
use lumen.Proto.Openraft as Raft
use lumen.Proto.Openraft.{LogId, Vote, blank, success}
use lumen.Proto.Conversions.{snapshot_meta_into}
use lumen.Base.{ℕ, ◌≤◌, ◌<◌, length, leb, if◌then◌else◌, arith}
use lumen.Core.Log.Frame.{Bytes}
use lumen.Proto.Conversions.{vote_into}
use lumen.Cluster.Network.{Reads, chunk_stream, received_snapshot}
use lumen.Cluster.Network.Transfer.{received_snapshot-chunk_stream}
use lumen.Examples.Instances.{one_voter}
use lumen.Base.{inr, refl, false, map_err, Text}
use lumen.Cluster.Network.{code_of}
use lumen.Cluster.Network.Calls.{Transport, Client, vote, append_entries, full_snapshot}
use lumen.Cluster.Network.Service.{RaftNode}
use lumen.Cluster.Network.Service as Service
use lumen.Cluster.Network.Served.{calls-served}

abbrev id_seven : LogId
id_seven = record { leader_id = record { term = 2; node_id = 1 }; index = 7 }

abbrev vote_two : Vote
vote_two = record { leader_id = record { term = 2; node_id = 1 }; committed = true }

abbrev meta : Raft.SnapshotMeta ℕ
meta = record {
  last_log_id = some id_seven;
  last_membership = record { log_id = none; membership = 3 };
  snapshot_id = bytes "1-7";
}

abbrev read_min : ℕ → Bytes → ℕ
read_min size file = if leb size (length file) then size else length file

read_min-buffer : (size : ℕ) (file : Bytes) → read_min size file ≤ size
read_min-buffer size file = ground arith

read_min-left : (size : ℕ) (file : Bytes) → read_min size file ≤ length file
read_min-left size file = ground arith

read_min-some : (size : ℕ) (file : Bytes) → 0 < size → 0 < length file → 0 < read_min size file
read_min-some size file p q = ground arith

abbrev reads : Reads
reads = record {
  read_len = read_min;
  read_buffer = read_min-buffer;
  read_left = read_min-left;
  read_some = read_min-some;
}

received_snapshot-chunk_stream_example :
    received_snapshot one_voter (
      chunk_stream reads 6
        (9 ∷ 8 ∷ 7 ∷ [])
        (vote_into vote_two)
        (snapshot_meta_into one_voter meta)
        2)
    ≡ ok (vote_two, meta, 9 ∷ 8 ∷ 7 ∷ [])
received_snapshot-chunk_stream_example =
    received_snapshot-chunk_stream one_voter reads vote_two meta 2 (omega arith) 6 9 (8 ∷ 7 ∷ [])
      (omega arith)

abbrev entry_seven : Raft.Entry ℕ
entry_seven = record { log_id = id_seven; payload = Raft.EntryPayload.membership 3 }

abbrev append : Raft.AppendEntriesRequest ℕ
append = record {
  vote = vote_two;
  prev_log_id = none;
  entries = entry_seven ∷ record { log_id = id_seven; payload = blank } ∷ [];
  leader_commit = some id_seven;
}

-- A node that grants every vote, takes every entry and installs every snapshot.
abbrev willing : RaftNode ℕ
willing = record {
  vote = λ rpc. some (record { vote = rpc.vote; vote_granted = true; last_log_id = none });
  append_entries = λ rpc. some success;
  begin_receiving_snapshot = true;
  install_full_snapshot = λ v m file. some (record { vote = v });
}

-- Calls that reach the node at once; a channel is its address.
abbrev direct : Transport
direct = record {
  Channel = Text;
  connect = λ address. some address;
  vote = λ ch w. map_err code_of (Service.vote one_voter willing w);
  append_entries = λ ch w. map_err code_of (Service.append_entries one_voter willing w);
  snapshot = λ ch chunks. map_err code_of (Service.snapshot one_voter willing chunks);
}

abbrev fresh : Client Text
fresh = record { node = record { node_id = 2; rpc_addr = bytes "b:1" }; channel = none }

abbrev joined : Client Text
joined = record fresh { channel = some (bytes "b:1") }

calls-served_example :
    (vote direct (record { vote = vote_two; last_log_id = some id_seven }) fresh
      ≡ (ok (record { vote = vote_two; vote_granted = true; last_log_id = none }), joined))
    × (append_entries direct one_voter append fresh ≡ (ok success, joined))
    × (full_snapshot direct one_voter reads false (some 2) vote_two meta (9 ∷ 8 ∷ 7 ∷ []) fresh
        ≡ (ok (record { vote = vote_two }), joined))
calls-served_example =
    calls-served direct one_voter willing fresh (bytes "b:1") reads (some 2)
      (record { vote = vote_two; last_log_id = some id_seven }) append vote_two meta 9 (8 ∷ 7 ∷ [])
      (inr (refl, refl)) ((λ w. refl), (λ w. refl), (λ chunks. refl))
