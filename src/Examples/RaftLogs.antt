-- ===== src/Examples/RaftLogs.antt =====
-- A store of a Raft log with one entry, and a codec of small numbers.
use lumen.Base.{
  ℕ, zero, suc, ◌≡◌, refl, Bool, true, false, Option, none, some, List, [], ◌∷◌, ◌++◌, ok, arith,
  retain,
}
use lumen.Core.Log.Frame.{Bytes, frame}
use lumen.Core.Log.Frame.Scan.{frames}
use lumen.Core.Log.Segments.{Segment, Holds, seg_records}
use lumen.Core.Wal.{default_segment_max}
use lumen.Proto.Openraft.{Vote, LogId, Entry}
use lumen.Proto.Openraft as Openraft
use lumen.Proto.Conversions.{entry_into, log_id_into, vote_into, leader_id_into, option_map}
use lumen.Proto.Wire as Wire
use lumen.Base.{saturating_suc}
use lumen.Core.Log.{last_index}
use lumen.Proto.Conversions.{entry_try_from}
use lumen.Cluster.LogStore.{
  decode_entry, concrete_range, Writing, written, unbounded, RaftCodec, LogStore, meta_proto,
  save_vote, save_committed, purge, truncate, append, open_store, load_meta, try_get_log_entries,
  excluded,
}
use lumen.Cluster.LogStore.Restart.{
  IsDurable, DecodesMeta, IsPersisted, operations-IsPersisted, open_store-save_vote,
}
use lumen.Cluster.LogStore.Entries.{
  DecodesEntry, HasEntries, AreConsecutive, append-HasEntries, try_get_log_entries-HasEntries,
}
use lumen.Examples.Instances.{length_sum, length_sum_u32, one_voter}
use lumen.Proto.Conversions.{payload_into}

abbrev bit : Bool → ℕ
bit true = 1
bit false = 0

abbrev bool : ℕ → Bool
bool zero = false
bool (suc n) = true

bool-bit : (b : Bool) → bool (bit b) ≡ b
bool-bit true = refl
bool-bit false = refl

abbrev put_leader : Option Wire.LeaderId → Bytes
put_leader none = 0 ∷ 0 ∷ 0 ∷ []
put_leader (some l) = 1 ∷ l.term ∷ l.node_id ∷ []

abbrev pub leader : ℕ → ℕ → ℕ → Option Wire.LeaderId
leader zero term node = none
leader (suc n) term node = some (record { term = term; node_id = node })

abbrev pub put_log_id : Option Wire.LogId → Bytes
put_log_id none = 0 ∷ 0 ∷ 0 ∷ 0 ∷ 0 ∷ []
put_log_id (some i) = 1 ∷ i.index ∷ put_leader i.leader_id

abbrev pub log_id : ℕ → ℕ → Option Wire.LeaderId → Option Wire.LogId
log_id zero index l = none
log_id (suc n) index l = some (record { leader_id = l; index = index })

abbrev put_vote : Option Wire.Vote → Bytes
put_vote none = 0 ∷ 0 ∷ 0 ∷ 0 ∷ 0 ∷ []
put_vote (some v) = 1 ∷ bit v.committed ∷ put_leader v.leader_id

abbrev vote : ℕ → ℕ → Option Wire.LeaderId → Option Wire.Vote
vote zero b l = none
vote (suc n) b l = some (record { leader_id = l; committed = bool b })

abbrev get_meta : Bytes → Option Wire.RaftMeta
get_meta (v ∷ b ∷ vl ∷ vt ∷ vn ∷ c ∷ ci ∷ cl ∷ ct ∷ cn ∷ p ∷ pi ∷ pl ∷ pt ∷ pn ∷ []) =
    some (record {
      vote = vote v b (leader vl vt vn);
      committed = log_id c ci (leader cl ct cn);
      last_purged = log_id p pi (leader pl pt pn);
    })
get_meta _ = none

abbrev get_entry : Bytes → Option Wire.Entry
get_entry (index ∷ []) = some (record {
  log_id = some (record { leader_id = some (record { term = 1; node_id = 1 }); index = index });
  payload = some Wire.Payload.blank;
})
get_entry _ = none

abbrev entry_index : Option Wire.LogId → ℕ
entry_index none = 0
entry_index (some i) = i.index

abbrev small : RaftCodec
small = record {
  encode_entry = λ e. entry_index e.log_id ∷ [];
  decode_entry = get_entry;
  encode_meta = λ m. put_vote m.vote ++ put_log_id m.committed ++ put_log_id m.last_purged;
  decode_meta = get_meta;
  crc32c = length_sum;
  crc_u32 = length_sum_u32;
}

small_votes :
    (v : Option Vote) (c p : Option LogId)
    → get_meta (
        put_vote (option_map vote_into v)
        ++ put_log_id (option_map log_id_into c)
        ++ put_log_id (option_map log_id_into p))
      ≡ some (record {
        vote = option_map vote_into v;
        committed = option_map log_id_into c;
        last_purged = option_map log_id_into p;
      })
unfolding vote_into log_id_into leader_id_into
small_votes none none none = refl
small_votes none none (some p) = refl
small_votes none (some c) none = refl
small_votes none (some c) (some p) = refl
small_votes (some v) none none = rw (bool-bit v.committed) refl
small_votes (some v) none (some p) = rw (bool-bit v.committed) refl
small_votes (some v) (some c) none = rw (bool-bit v.committed) refl
small_votes (some v) (some c) (some p) = rw (bool-bit v.committed) refl

small-DecodesMeta : DecodesMeta small
unfolding meta_proto
small-DecodesMeta m = small_votes m.vote m.committed m.last_purged

abbrev pub at : ℕ → Entry one_voter.Membership
at index = record {
  log_id = record { leader_id = record { term = 1; node_id = 1 }; index = index };
  payload = Openraft.EntryPayload.blank;
}

abbrev five : Segment
five = record { start = 5; payloads = (5 ∷ []) ∷ [] }

abbrev store : LogStore
store = record {
  log = record {
    disk = (5, frames length_sum ((5 ∷ []) ∷ [])) ∷ [];
    segment_max_bytes = default_segment_max;
    starts = 5 ∷ [];
    records = seg_records five;
    active = some (record { start = 5; bytes = 9 });
  };
  meta = record { vote = none; committed = none; last_purged = none };
  meta_file = none;
}

store-Holds : Holds length_sum store.log 5 [] five
unfolding frame
store-Holds = record {
  disk = refl;
  starts = refl;
  records = refl;
  active = refl;
  chain = tt;
  last_start = refl;
  sized = ((omega arith, tt), omega arith);
}

store-HasEntries : HasEntries small one_voter store 5 [] five (at 5 ∷ [])
unfolding decode_entry entry_try_from lumen.Proto.Conversions.log_id_try_from
    lumen.Proto.Conversions.payload_try_from
store-HasEntries = record { holds = store-Holds; entries = refl }

six_decodes : (index : ℕ) → DecodesEntry small one_voter (at index)
unfolding entry_into log_id_into leader_id_into payload_into
six_decodes index = refl

append-HasEntries_example :
    (s' : LogStore) × (closed' : List Segment) × (last' : Segment) × (append small one_voter
        (at 6 ∷ at 7 ∷ [])
        store
      ≡ (ok tt, s'))
    × HasEntries small one_voter s' 5 closed' last' (at 5 ∷ at 6 ∷ at 7 ∷ [])
unfolding AreConsecutive
append-HasEntries_example =
    append-HasEntries small one_voter store 5 [] five (at 5 ∷ []) (at 6 ∷ at 7 ∷ [])
      store-HasEntries (refl, (refl, tt)) (omega arith, (omega arith, tt))
      (six_decodes 6, (six_decodes 7, tt)) (omega arith) (omega arith)

try_get_log_entries-HasEntries_example :
    try_get_log_entries small one_voter (excluded 4, unbounded) store ≡ some (ok (at 5 ∷ []))
unfolding retain concrete_range saturating_suc last_index
try_get_log_entries-HasEntries_example =
    try_get_log_entries-HasEntries small one_voter store 5 [] five (at 5 ∷ [])
      (excluded 4, unbounded) 5 6 store-HasEntries refl (omega arith)

store-IsPersisted : IsPersisted small store
unfolding load_meta
store-IsPersisted = refl

operations-IsPersisted_example :
    ((w : Writing) (v : Vote) → IsDurable small store (save_vote small w v store))
    × ((w : Writing) (c : Option LogId) → IsDurable small store (save_committed small w c store))
    × ((w : Writing) (i : LogId) → IsDurable small store (purge small w i store))
    × ((i : LogId) → IsPersisted small (truncate small i store).1)
    × ((es : List (Entry one_voter.Membership))
        → IsPersisted small (append small one_voter es store).1)
operations-IsPersisted_example =
    operations-IsPersisted small one_voter store small-DecodesMeta store-IsPersisted

abbrev for_two : Vote
for_two = record { leader_id = record { term = 2; node_id = 1 }; committed = true }

abbrev voted : LogStore
voted = (save_vote small written for_two store).1

abbrev committed : LogStore
committed = (save_committed small written (some (at 5).log_id) voted).1

open_store-save_vote_example :
    open_store small committed.log.disk committed.meta_file
    ≡ ok (record {
      log = store.log;
      meta = record { vote = some for_two; committed = some (at 5).log_id; last_purged = none };
      meta_file = committed.meta_file;
    })
open_store-save_vote_example =
    open_store-save_vote small store 5 [] five for_two (some (at 5).log_id) voted committed
      small-DecodesMeta store-Holds refl refl (unfold save_vote in refl)
      (unfold save_committed in refl)
