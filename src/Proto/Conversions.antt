-- ===== src/Proto/Conversions.antt =====
-- `From` and `TryFrom` between openraft's types and the messages
-- (crates/proto/src/conversions.rs).
use lumen.Base.{
  ℕ, Text, bytes, Option, none, some, List, [], map, Result, ok, ok_or, map_ok, transpose, try_map,
  ◌>>=◌, insert_all, nat_ord,
}
use lumen.Proto.Wire
use lumen.Proto.Openraft
use lumen.Proto.Openraft.{
  BTreeSet, LeaderId, LogId, Vote, MembershipApi, StoredMembership, SnapshotMeta, EntryPayload,
  Entry, VoteRequest, VoteResponse, AppendEntriesRequest, AppendEntriesResponse, SnapshotResponse,
}

pub data ConversionError : Type 0 where
  missing_field : Text → ConversionError

abbrev pub Converted {ℓ} : Type ℓ → Type ℓ
Converted A = Result ConversionError A

abbrev pub option_map {ℓ κ} : {A : Type ℓ} {B : Type κ} → (A → B) → Option A → Option B
option_map f none = none
option_map f (some a) = some (f a)

unfoldable pub require {ℓ} : {A : Type ℓ} → Option A → Text → Converted A
require opt field = ok_or opt (missing_field field)

unfoldable pub leader_id_into : LeaderId → Wire.LeaderId
leader_id_into v = record { term = v.term; node_id = v.node_id }

unfoldable pub leader_id_from : Wire.LeaderId → LeaderId
leader_id_from v = record { term = v.term; node_id = v.node_id }

unfoldable pub vote_into : Vote → Wire.Vote
unfolding leader_id_into
vote_into v = record { leader_id = some (leader_id_into v.leader_id); committed = v.committed }

unfoldable pub vote_try_from : Wire.Vote → Converted Vote
unfolding require leader_id_from
vote_try_from v = do
  leader_id ← require v.leader_id (bytes "Vote.leader_id")
  ok (record { leader_id = leader_id_from leader_id; committed = v.committed })

unfoldable pub log_id_into : LogId → Wire.LogId
unfolding leader_id_into
log_id_into v = record { leader_id = some (leader_id_into v.leader_id); index = v.index }

unfoldable pub log_id_try_from : Wire.LogId → Converted LogId
unfolding require leader_id_from
log_id_try_from v = do
  leader_id ← require v.leader_id (bytes "LogId.leader_id")
  ok (record { leader_id = leader_id_from leader_id; index = v.index })

-- The ids of a set, and the set of the ids.
abbrev pub ids_of : BTreeSet ℕ → List ℕ
ids_of set = map (λ e. e.0) set

abbrev pub set_of : List ℕ → BTreeSet ℕ
unfolding insert_all
set_of ids = insert_all (map (λ i. (i, tt)) ids) []

module _ (api : MembershipApi) where
  open api use {Membership}

  unfoldable pub membership_into : Membership → Wire.Membership
  unfolding insert_all
  membership_into m = record {
    configs = map (λ (set : BTreeSet ℕ). record { node_ids = ids_of set }) (api.get_joint_config m);
    nodes = insert_all (api.nodes m) [];
  }

  unfoldable pub membership_try_from : Wire.Membership → Converted Membership
  unfolding insert_all
  membership_try_from m =
      ok (api.new (map (λ (s : Wire.NodeIdSet). set_of s.node_ids) m.configs) m.nodes)

  unfoldable pub stored_membership_into : StoredMembership Membership → Wire.StoredMembership
  stored_membership_into s = record {
    log_id = option_map log_id_into s.log_id;
    membership = some (membership_into s.membership);
  }

  unfoldable pub stored_membership_try_from :
      Wire.StoredMembership → Converted (StoredMembership Membership)
  unfolding require
  stored_membership_try_from s = do
    log_id ← transpose log_id_try_from s.log_id
    wire ← require s.membership (bytes "StoredMembership.membership")
    membership ← membership_try_from wire
    ok (record { log_id = log_id; membership = membership })

  unfoldable pub snapshot_meta_into : SnapshotMeta Membership → Wire.SnapshotMeta
  snapshot_meta_into m = record {
    last_log_id = option_map log_id_into m.last_log_id;
    last_membership = some (stored_membership_into m.last_membership);
    snapshot_id = m.snapshot_id;
  }

  unfoldable pub snapshot_meta_try_from : Wire.SnapshotMeta → Converted (SnapshotMeta Membership)
  unfolding require
  snapshot_meta_try_from m = do
    last_log_id ← transpose log_id_try_from m.last_log_id
    wire ← require m.last_membership (bytes "SnapshotMeta.last_membership")
    last_membership ← stored_membership_try_from wire
    ok (record {
      last_log_id = last_log_id;
      last_membership = last_membership;
      snapshot_id = m.snapshot_id;
    })

  unfoldable pub payload_into : EntryPayload Membership → Wire.Payload
  payload_into Openraft.EntryPayload.blank = Wire.Payload.blank
  payload_into (Openraft.EntryPayload.normal cmd) = Wire.Payload.normal cmd
  payload_into (Openraft.EntryPayload.membership m) = Wire.Payload.membership (membership_into m)

  unfoldable pub entry_into : Entry Membership → Wire.Entry
  entry_into e = record {
    log_id = some (log_id_into e.log_id);
    payload = some (payload_into e.payload);
  }

  unfoldable pub payload_try_from : Wire.Payload → Converted (EntryPayload Membership)
  payload_try_from Wire.Payload.blank = ok Openraft.EntryPayload.blank
  payload_try_from (Wire.Payload.normal cmd) = ok (Openraft.EntryPayload.normal cmd)
  payload_try_from (Wire.Payload.membership m) =
      map_ok Openraft.EntryPayload.membership (membership_try_from m)

  unfoldable pub entry_try_from : Wire.Entry → Converted (Entry Membership)
  unfolding require
  entry_try_from e = do
    wire_id ← require e.log_id (bytes "Entry.log_id")
    log_id ← log_id_try_from wire_id
    wire_payload ← require e.payload (bytes "Entry.payload")
    payload ← payload_try_from wire_payload
    ok (record { log_id = log_id; payload = payload })

unfoldable pub vote_request_into : VoteRequest → Wire.VoteRequest
vote_request_into r = record {
  vote = some (vote_into r.vote);
  last_log_id = option_map log_id_into r.last_log_id;
}

unfoldable pub vote_request_try_from : Wire.VoteRequest → Converted VoteRequest
unfolding require
vote_request_try_from r = do
  wire ← require r.vote (bytes "VoteRequest.vote")
  vote ← vote_try_from wire
  last_log_id ← transpose log_id_try_from r.last_log_id
  ok (record { vote = vote; last_log_id = last_log_id })

unfoldable pub vote_response_into : VoteResponse → Wire.VoteResponse
vote_response_into r = record {
  vote = some (vote_into r.vote);
  vote_granted = r.vote_granted;
  last_log_id = option_map log_id_into r.last_log_id;
}

unfoldable pub vote_response_try_from : Wire.VoteResponse → Converted VoteResponse
unfolding require
vote_response_try_from r = do
  wire ← require r.vote (bytes "VoteResponse.vote")
  vote ← vote_try_from wire
  last_log_id ← transpose log_id_try_from r.last_log_id
  ok (record { vote = vote; vote_granted = r.vote_granted; last_log_id = last_log_id })

module _ (api : MembershipApi) where
  open api use {Membership}

  unfoldable pub append_request_into : AppendEntriesRequest Membership → Wire.AppendEntriesRequest
  append_request_into r = record {
    vote = some (vote_into r.vote);
    prev_log_id = option_map log_id_into r.prev_log_id;
    entries = map (entry_into api) r.entries;
    leader_commit = option_map log_id_into r.leader_commit;
  }

  unfoldable pub append_request_try_from :
      Wire.AppendEntriesRequest → Converted (AppendEntriesRequest Membership)
  unfolding require try_map
  append_request_try_from r = do
    entries ← try_map (entry_try_from api) r.entries
    wire ← require r.vote (bytes "AppendEntriesRequest.vote")
    vote ← vote_try_from wire
    prev_log_id ← transpose log_id_try_from r.prev_log_id
    leader_commit ← transpose log_id_try_from r.leader_commit
    ok (record {
      vote = vote;
      prev_log_id = prev_log_id;
      entries = entries;
      leader_commit = leader_commit;
    })

unfoldable pub append_result_into : AppendEntriesResponse → Wire.AppendResult
append_result_into Openraft.AppendEntriesResponse.success = Wire.AppendResult.success
append_result_into (Openraft.AppendEntriesResponse.partial_success m) =
    Wire.AppendResult.partial_success (record { matching = option_map log_id_into m })
append_result_into Openraft.AppendEntriesResponse.conflict = Wire.AppendResult.conflict
append_result_into (Openraft.AppendEntriesResponse.higher_vote v) =
    Wire.AppendResult.higher_vote (vote_into v)

unfoldable pub append_response_into : AppendEntriesResponse → Wire.AppendEntriesResponse
append_response_into r = record { result = some (append_result_into r) }

unfoldable pub append_result_from : Wire.AppendResult → Converted AppendEntriesResponse
append_result_from Wire.AppendResult.success = ok Openraft.AppendEntriesResponse.success
append_result_from (Wire.AppendResult.partial_success p) =
    map_ok Openraft.AppendEntriesResponse.partial_success (transpose log_id_try_from p.matching)
append_result_from Wire.AppendResult.conflict = ok Openraft.AppendEntriesResponse.conflict
append_result_from (Wire.AppendResult.higher_vote v) =
    map_ok Openraft.AppendEntriesResponse.higher_vote (vote_try_from v)

unfoldable pub append_response_try_from :
    Wire.AppendEntriesResponse → Converted AppendEntriesResponse
unfolding require
append_response_try_from r = do
  result ← require r.result (bytes "AppendEntriesResponse.result")
  append_result_from result

unfoldable pub snapshot_response_into : SnapshotResponse → Wire.SnapshotResponse
snapshot_response_into r = record { vote = some (vote_into r.vote) }

unfoldable pub snapshot_response_try_from : Wire.SnapshotResponse → Converted SnapshotResponse
unfolding require
snapshot_response_try_from r = do
  wire ← require r.vote (bytes "SnapshotResponse.vote")
  vote ← vote_try_from wire
  ok (record { vote = vote })
