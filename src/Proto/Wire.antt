-- ===== src/Proto/Wire.antt =====
-- The messages of crates/proto/proto/raft.proto. A field of message type may be absent.
use lumen.Base.{ℕ, Bool, Text, Option, List, BTreeMap}
use lumen.Proto.Command.{Command}

pub record LeaderId : Type 0 where
  pub term : ℕ
  pub node_id : ℕ

pub record Vote : Type 0 where
  pub leader_id : Option LeaderId
  pub committed : Bool

pub record LogId : Type 0 where
  pub leader_id : Option LeaderId
  pub index : ℕ

pub record Node : Type 0 where
  pub node_id : ℕ
  pub rpc_addr : Text

pub record NodeIdSet : Type 0 where
  pub node_ids : List ℕ

pub record Membership : Type 0 where
  pub configs : List NodeIdSet
  pub nodes : BTreeMap ℕ Node

pub record StoredMembership : Type 0 where
  pub log_id : Option LogId
  pub membership : Option Membership

pub data Payload : Type 0 where
  blank : Payload
  normal : Command → Payload
  membership : Membership → Payload

pub record Entry : Type 0 where
  pub log_id : Option LogId
  pub payload : Option Payload

pub record SnapshotMeta : Type 0 where
  pub last_log_id : Option LogId
  pub last_membership : Option StoredMembership
  pub snapshot_id : Text

pub record VoteRequest : Type 0 where
  pub vote : Option Vote
  pub last_log_id : Option LogId

pub record VoteResponse : Type 0 where
  pub vote : Option Vote
  pub vote_granted : Bool
  pub last_log_id : Option LogId

pub record AppendEntriesRequest : Type 0 where
  pub vote : Option Vote
  pub prev_log_id : Option LogId
  pub entries : List Entry
  pub leader_commit : Option LogId

pub record PartialSuccess : Type 0 where
  pub matching : Option LogId

pub data AppendResult : Type 0 where
  success : AppendResult
  partial_success : PartialSuccess → AppendResult
  conflict : AppendResult
  higher_vote : Vote → AppendResult

pub record AppendEntriesResponse : Type 0 where
  pub result : Option AppendResult

pub record SnapshotRequest : Type 0 where
  pub vote : Option Vote
  pub meta : Option SnapshotMeta
  pub bytes : List ℕ

pub record SnapshotResponse : Type 0 where
  pub vote : Option Vote

pub record RaftMeta : Type 0 where
  pub vote : Option Vote
  pub committed : Option LogId
  pub last_purged : Option LogId
