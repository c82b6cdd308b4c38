-- ===== src/Examples/Machines.antt =====
-- A state machine over a catalog with one collection.
use lumen.Base.{ℕ, ◌≡◌, refl, none, some, List, [], ◌∷◌, ◌++◌, ok, Option, arith}
use lumen.Core.Log.Frame.{Bytes}
use lumen.Core.Catalog.Replayed.{IsDocument}
use lumen.Proto.Openraft.{Entry, LogId, normal, membership}
use lumen.Proto.Conversions.{
  option_map, stored_membership_into, membership_into, log_id_into, leader_id_into,
}
use lumen.Proto.Wire as Wire
use lumen.Cluster.StateMachine.{
  MachineCodec, StateMachine, default_response, load_membership, open_machine, apply, applied_state,
}
use lumen.Cluster.StateMachine.Membership.{
  newest, DecodesMembership, IsRemembered, open_machine-apply,
}
use lumen.Cluster.StateMachine.Replays.{
  IsQuiet, IsQuietOp, apply-replayed, applied_state-checkpoint,
}
use lumen.Examples.Instances.{Memory, memory, numbers, one_voter}
use lumen.Examples.RaftLogs.{put_log_id, log_id, leader, at}
use lumen.Examples.Catalogs.{catalog, checked, at_nine, old_write, checkpoint}

abbrev first_ids : List Wire.NodeIdSet → Bytes
first_ids [] = []
first_ids (s ∷ sets) = s.node_ids

abbrev put_voter : Option Wire.Membership → Bytes
put_voter none = []
put_voter (some m) = first_ids m.configs

abbrev get_membership : Bytes → Option Wire.StoredMembership
get_membership (c ∷ ci ∷ cl ∷ ct ∷ cn ∷ i ∷ []) = some (record {
  log_id = log_id c ci (leader cl ct cn);
  membership = some (membership_into one_voter i);
})
get_membership _ = none

abbrev pub codec : MachineCodec one_voter
codec = record {
  encode_membership = λ m. put_log_id m.log_id ++ put_voter m.membership;
  decode_membership = get_membership;
  default_membership = 0;
}

codec-DecodesMembership : DecodesMembership one_voter codec
unfolding stored_membership_into membership_into log_id_into leader_id_into
codec-DecodesMembership m = round_trip m.log_id m.membership
  where
    round_trip :
        (i : Option LogId) (v : ℕ)
        → get_membership (
            put_log_id (option_map log_id_into i) ++ put_voter (some (membership_into one_voter v)))
          ≡ some (record {
            log_id = option_map log_id_into i;
            membership = some (membership_into one_voter v);
          })
    round_trip none v = refl
    round_trip (some i) v = refl

abbrev machine : StateMachine ℕ Memory
machine = record {
  catalog = checked;
  membership_file = none;
  last_applied = none;
  last_membership = record { log_id = none; membership = 0 };
  current_snapshot = none;
}

abbrev joined : Entry ℕ
joined = record { log_id = (at 4).log_id; payload = membership 3 }

abbrev written : Entry ℕ
written = record { log_id = (at 8).log_id; payload = normal (record { op = some old_write }) }

machine-IsRemembered : IsRemembered one_voter codec machine
unfolding load_membership
machine-IsRemembered = refl

abbrev later : Entry ℕ
later = record { log_id = (at 5).log_id; payload = membership 2 }

abbrev rejoined : StateMachine ℕ Memory
rejoined = (apply one_voter codec memory numbers (joined ∷ later ∷ at 6 ∷ []) machine).1

entries_applied :
    apply one_voter codec memory numbers (joined ∷ later ∷ at 6 ∷ []) machine
    ≡ (ok (default_response ∷ default_response ∷ default_response ∷ []), rejoined)
unfolding apply
entries_applied = refl

open_machine-apply_example :
    open_machine one_voter codec checked rejoined.membership_file
    ≡ ok (record {
      catalog = checked;
      membership_file = rejoined.membership_file;
      last_applied = none;
      last_membership = record { log_id = some (at 5).log_id; membership = 2 };
      current_snapshot = none;
    })
unfolding newest
open_machine-apply_example =
    open_machine-apply one_voter codec memory numbers codec-DecodesMembership
      (joined ∷ later ∷ at 6 ∷ []) machine rejoined
      (default_response ∷ default_response ∷ default_response ∷ []) checked machine-IsRemembered
      entries_applied

apply-replayed_example :
    (apply one_voter codec memory numbers (at 3 ∷ joined ∷ written ∷ []) machine).1.catalog
    ≡ checked
unfolding IsQuiet IsQuietOp IsDocument
apply-replayed_example =
    apply-replayed one_voter codec memory numbers at_nine catalog checked checkpoint
      (at 3 ∷ joined ∷ written ∷ []) machine
      ((omega arith, tt), ((omega arith, tt), ((omega arith, tt), tt))) refl

applied_state-checkpoint_example :
    applied_state one_voter codec memory numbers machine
    ≡ ok (
      some (record { leader_id = record { term = 1; node_id = 1 }; index = 9 }),
      machine.last_membership,
    )
applied_state-checkpoint_example =
    applied_state-checkpoint one_voter codec memory numbers at_nine catalog checked checkpoint
      machine refl (λ e. cc)
