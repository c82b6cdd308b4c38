-- ===== src/Proto/RoundTrip.antt =====
-- Each conversion of crates/proto/src/conversions.rs to a message is undone by the conversion back.
use lumen.Base.{
  ℕ, Option, none, some, List, [], ◌∷◌, map, ok, transpose, try_map-map, ◌≡◌, refl, ap, IsSorted,
  All, nat_ord, insert_all, insert_all-nil,
}
use lumen.Proto.Wire
use lumen.Proto.Openraft
use lumen.Proto.Openraft.{
  BTreeSet, LogId, Vote, MembershipApi, StoredMembership, SnapshotMeta, EntryPayload, Entry,
  VoteRequest, VoteResponse, AppendEntriesRequest, AppendEntriesResponse, SnapshotResponse,
}
use lumen.Proto.Conversions.{
  option_map, vote_into, vote_try_from, log_id_into, log_id_try_from, ids_of, set_of,
  membership_into, membership_try_from, stored_membership_into, stored_membership_try_from,
  snapshot_meta_into, snapshot_meta_try_from, payload_into, payload_try_from, entry_into,
  entry_try_from, vote_request_into, vote_request_try_from, vote_response_into,
  vote_response_try_from, append_request_into, append_request_try_from, append_result_into,
  append_result_from, append_response_into, append_response_try_from, snapshot_response_into,
  snapshot_response_try_from,
}

pub vote_round_trip : (v : Vote) → vote_try_from (vote_into v) ≡ ok v
unfolding vote_try_from vote_into
vote_round_trip v = refl

log_id_round_trip : (v : LogId) → log_id_try_from (log_id_into v) ≡ ok v
unfolding log_id_try_from log_id_into
log_id_round_trip v = refl

pub optional_round_trip :
    (v : Option LogId) → transpose log_id_try_from (option_map log_id_into v) ≡ ok v
optional_round_trip none = refl
optional_round_trip (some v) = unfold log_id_try_from log_id_into in refl

set_keys : (set : BTreeSet ℕ) → map (λ (i : ℕ). (i, tt)) (ids_of set) ≡ set
set_keys [] = refl
set_keys ((i, u) ∷ set) = ap (λ l. (i, tt) ∷ l) (set_keys set)

set_round_trip : (set : BTreeSet ℕ) → IsSorted set → set_of (ids_of set) ≡ set
unfolding insert_all
set_round_trip set s = rw (set_keys set) (insert_all-nil set s)

sets_round_trip :
    (sets : List (BTreeSet ℕ))
    → All IsSorted sets
    → map
        (λ (s : Wire.NodeIdSet). set_of s.node_ids)
        (map (λ (set : BTreeSet ℕ). record { node_ids = ids_of set }) sets)
      ≡ sets
unfolding insert_all
sets_round_trip [] s = refl
sets_round_trip (set ∷ sets) s = cc (set_round_trip set s.0, sets_round_trip sets s.1)

module _ (api : MembershipApi) where
  open api use {Membership}

  -- A membership, joint configurations and learners included, survives the wire.
  pub membership_round_trip :
      (m : Membership) → membership_try_from api (membership_into api m) ≡ ok m
  unfolding membership_try_from membership_into
  membership_round_trip m = rw (
    sets_round_trip (api.get_joint_config m) (api.sets_sorted m),
    insert_all-nil (api.nodes m) (api.nodes_sorted m),
    api.new_accessors m,
  )

  pub stored_membership_round_trip :
      (s : StoredMembership Membership)
      → stored_membership_try_from api (stored_membership_into api s) ≡ ok s
  stored_membership_round_trip s =
      unfold stored_membership_try_from stored_membership_into in
      rw (optional_round_trip s.log_id, membership_round_trip s.membership)

  -- The metadata of a snapshot survives the wire.
  pub snapshot_meta_round_trip :
      (m : SnapshotMeta Membership) → snapshot_meta_try_from api (snapshot_meta_into api m) ≡ ok m
  snapshot_meta_round_trip m =
      unfold snapshot_meta_try_from snapshot_meta_into in
      rw (optional_round_trip m.last_log_id, stored_membership_round_trip m.last_membership)

  payload_round_trip :
      (p : EntryPayload Membership) → payload_try_from api (payload_into api p) ≡ ok p
  unfolding payload_try_from payload_into
  payload_round_trip Openraft.EntryPayload.blank = refl
  payload_round_trip (Openraft.EntryPayload.normal cmd) = refl
  payload_round_trip (Openraft.EntryPayload.membership m) = rw (membership_round_trip m)

  -- A log entry with any payload survives the wire.
  pub entry_round_trip : (e : Entry Membership) → entry_try_from api (entry_into api e) ≡ ok e
  unfolding entry_try_from entry_into
  entry_round_trip e = rw (log_id_round_trip e.log_id, payload_round_trip e.payload)

-- A vote request survives the wire.
pub vote_request_round_trip : (r : VoteRequest) → vote_request_try_from (vote_request_into r) ≡ ok r
unfolding vote_request_try_from vote_request_into
vote_request_round_trip r = rw (vote_round_trip r.vote, optional_round_trip r.last_log_id)

-- So does the response to it.
pub vote_response_round_trip :
    (r : VoteResponse) → vote_response_try_from (vote_response_into r) ≡ ok r
unfolding vote_response_try_from vote_response_into
vote_response_round_trip r = rw (vote_round_trip r.vote, optional_round_trip r.last_log_id)

-- An append request with all its entries survives the wire.
pub append_request_round_trip :
    (api : MembershipApi) (r : AppendEntriesRequest api.Membership)
    → append_request_try_from api (append_request_into api r) ≡ ok r
unfolding append_request_try_from append_request_into
append_request_round_trip api r = rw (
  try_map-map (entry_try_from api) (entry_into api) (entry_round_trip api) r.entries,
  vote_round_trip r.vote,
  optional_round_trip r.prev_log_id,
  optional_round_trip r.leader_commit,
)

append_result_round_trip :
    (r : AppendEntriesResponse) → append_result_from (append_result_into r) ≡ ok r
unfolding append_result_from append_result_into
append_result_round_trip Openraft.AppendEntriesResponse.success = refl
append_result_round_trip (Openraft.AppendEntriesResponse.partial_success m) =
    rw (optional_round_trip m)
append_result_round_trip Openraft.AppendEntriesResponse.conflict = refl
append_result_round_trip (Openraft.AppendEntriesResponse.higher_vote v) = rw (vote_round_trip v)

-- Each of the four responses to an append survives the wire.
pub append_response_round_trip :
    (r : AppendEntriesResponse) → append_response_try_from (append_response_into r) ≡ ok r
unfolding append_response_try_from append_response_into
append_response_round_trip r = append_result_round_trip r

pub snapshot_response_round_trip :
    (r : SnapshotResponse) → snapshot_response_try_from (snapshot_response_into r) ≡ ok r
unfolding snapshot_response_try_from snapshot_response_into
snapshot_response_round_trip r = rw (vote_round_trip r.vote)
