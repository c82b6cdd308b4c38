-- ===== src/Proto/Openraft.antt =====
-- The data types of openraft that crates/proto/src/conversions.rs reads and builds through their
-- public fields. `Membership` is behind its accessors: it and they are a parameter.
use lumen.Base.{ℕ, Bool, Text, Option, List, ◌≡◌, BTreeMap, IsSorted, All, nat_ord}
use lumen.Proto.Command.{Command}
use lumen.Proto.Wire.{Node}

abbrev pub BTreeSet : Type 0 → Type 0
BTreeSet K = BTreeMap K (Unit {0})

pub record LeaderId : Type 0 where
  pub term : ℕ
  pub node_id : ℕ

pub record LogId : Type 0 where
  pub leader_id : LeaderId
  pub index : ℕ

pub record Vote : Type 0 where
  pub leader_id : LeaderId
  pub committed : Bool

-- `Membership::new`, `get_joint_config` and `nodes`: a membership is what its accessors show, and
-- its sets and maps are those of the standard library.
pub record MembershipApi : Type 1 where
  pub Membership : Type 0
  pub new : List (BTreeSet ℕ) → BTreeMap ℕ Node → Membership
  pub get_joint_config : Membership → List (BTreeSet ℕ)
  pub nodes : Membership → BTreeMap ℕ Node
  pub sets_sorted : (m : Membership) → All IsSorted (get_joint_config m)
  pub nodes_sorted : (m : Membership) → IsSorted (nodes m)
  pub new_accessors : (m : Membership) → new (get_joint_config m) (nodes m) ≡ m

pub record StoredMembership (M : Type 0) : Type 0 where
  pub log_id : Option LogId
  pub membership : M

pub record SnapshotMeta (M : Type 0) : Type 0 where
  pub last_log_id : Option LogId
  pub last_membership : StoredMembership M
  pub snapshot_id : Text

pub data EntryPayload (M : Type 0) : Type 0 where
  blank : EntryPayload M
  normal : Command → EntryPayload M
  membership : M → EntryPayload M

pub record Entry (M : Type 0) : Type 0 where
  pub log_id : LogId
  pub payload : EntryPayload M

pub record VoteRequest : Type 0 where
  pub vote : Vote
  pub last_log_id : Option LogId

pub record VoteResponse : Type 0 where
  pub vote : Vote
  pub vote_granted : Bool
  pub last_log_id : Option LogId

pub record AppendEntriesRequest (M : Type 0) : Type 0 where
  pub vote : Vote
  pub prev_log_id : Option LogId
  pub entries : List (Entry M)
  pub leader_commit : Option LogId

pub data AppendEntriesResponse : Type 0 where
  success : AppendEntriesResponse
  partial_success : Option LogId → AppendEntriesResponse
  conflict : AppendEntriesResponse
  higher_vote : Vote → AppendEntriesResponse

pub record SnapshotResponse : Type 0 where
  pub vote : Vote
