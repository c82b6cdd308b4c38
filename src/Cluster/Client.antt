-- ===== src/Cluster/Client.antt =====
-- The calls of the HTTP layer on a cluster node, crates/cluster/src/cluster.rs, over the node's
-- catalog. openraft is a parameter: what a call of it answers, and the catalog once the entries are
-- applied that it applies before it answers. The calls run one at a time.
pub mod Reading
pub mod Reported
use lumen.Base.{
  ℕ, ◌==◌, Text, Bool, true, false, nat_ord, Option, none, some, List, BTreeMap, insert, Result, ok,
  err, map_err, map_ok, if◌then◌else◌,
}
use lumen.Core.Error.{Error, validation, raft_message, Outcome, done, failed, panicked}
use lumen.Core.Json.{JsonApi}
use lumen.Core.Mapping.{Mapping}
use lumen.Core.Search.{SearchResults}
use lumen.Core.Tantivy.{TantivyApi, LogMark, default_mark}
use lumen.Core.Wal.{Externals}
use lumen.Core.Catalog.State.{Catalog}
use lumen.Core.Catalog.State as State
use lumen.Core.Catalog.Apply.{checkpoint_applied, commit_collection}
use lumen.Core.Catalog.Writes.{
  build_create_command, build_index_command, build_delete_command, build_drop_command, get_document,
  search, describe,
}
use lumen.Proto.Command as Proto
use lumen.Proto.Openraft.{LogId, BTreeSet}
use lumen.Proto.Wire.{Node}
use lumen.Cluster.StateMachine.{Response, mark_of_log_id}

pub data ClientError : Type 0 where
  core : Error → ClientError
  forward_to_leader : Option Node → ClientError
  already_initialized unavailable fatal : ClientError

-- openraft's `RaftError` over the errors of its calls.
pub data RaftError (E : Type 0) : Type 0 where
  api_error : E → RaftError E
  fatal_error : RaftError E

pub data ClientWriteError : Type 0 where
  write_elsewhere : Option Node → ClientWriteError
  change_membership_error : Text → ClientWriteError

pub data CheckIsLeaderError : Type 0 where
  read_elsewhere : Option Node → CheckIsLeaderError
  quorum_not_enough : CheckIsLeaderError

pub data InitializeError : Type 0 where
  not_allowed : InitializeError
  not_in_members : Text → InitializeError

unfoldable pub classify_write : RaftError ClientWriteError → ClientError
classify_write (api_error (write_elsewhere node)) = forward_to_leader node
classify_write (api_error (change_membership_error e)) = core (validation (raft_message e))
classify_write fatal_error = fatal

unfoldable pub classify_read : RaftError CheckIsLeaderError → ClientError
classify_read (api_error (read_elsewhere node)) = forward_to_leader node
classify_read (api_error quorum_not_enough) = unavailable
classify_read fatal_error = fatal

unfoldable pub classify_initialize : RaftError InitializeError → ClientError
classify_initialize (api_error not_allowed) = already_initialized
classify_initialize (api_error (not_in_members e)) = core (validation (raft_message e))
classify_initialize fatal_error = fatal

pub data ServerState : Type 0 where
  learner follower candidate leader shutdown : ServerState

-- What is read of `RaftMetrics`; `voter_ids`, `nodes` and `get_node` are those of its membership.
pub record Metrics : Type 0 where
  pub id : ℕ
  pub current_term : ℕ
  pub state : ServerState
  pub current_leader : Option ℕ
  pub last_log_index : Option ℕ
  pub last_applied : Option LogId
  pub voter_ids : List ℕ
  pub nodes : BTreeMap ℕ Node
  pub get_node : ℕ → Option Node

pub record Raft (Index : Type 0) : Type 0 where
  pub metrics : Catalog Index → Metrics
  pub client_write :
      Proto.Command → Catalog Index → Result (RaftError ClientWriteError) Response × Catalog Index
  pub ensure_linearizable :
      Catalog Index → Result (RaftError CheckIsLeaderError) (Unit {0}) × Catalog Index
  pub initialize : BTreeMap ℕ Node → Result (RaftError InitializeError) (Unit {0})
  -- whether the call waits for the learner to catch up is its last argument
  pub add_learner :
      ℕ → Node → Bool → Catalog Index → Result (RaftError ClientWriteError) Response × Catalog Index
  -- `ChangeMembers::ReplaceAllVoters`
  pub replace_all_voters :
      BTreeSet ℕ
      → Bool
      → Catalog Index
      → Result (RaftError ClientWriteError) Response × Catalog Index

pub record CreateOutcome : Type 0 where
  pub mapping : Mapping
  pub created : Bool

pub record WriteOutcome : Type 0 where
  pub id : Text
  pub created : Bool

unfoldable pub forward_or_unavailable : Metrics → ClientError
forward_or_unavailable metrics = elim metrics.current_leader [
  | none ↦ unavailable
  | some leader_id ↦ elim (metrics.get_node leader_id) [
    | some node ↦ forward_to_leader (some node)
    | none ↦ unavailable
  ]
]

abbrev pub is_leader : ℕ → Option ℕ → Bool
is_leader id none = false
is_leader id (some leader_id) = leader_id == id

-- `.map(to_mark).unwrap_or_default()`
unfoldable pub mark_or_default : Option LogId → LogMark
unfolding mark_of_log_id
mark_or_default none = default_mark
mark_or_default (some id) = mark_of_log_id id

unfoldable pub default_members : ℕ → Node → BTreeMap ℕ Node → BTreeMap ℕ Node
unfolding insert
default_members id self_node seed_peers = insert id self_node seed_peers

-- A call on the node's catalog.
abbrev pub Call : Type 0 → Type 0 → Type 0
Call Index A = Catalog Index → Result ClientError A × Catalog Index

-- The error of a catalog's action. A panic on the blocking task of `spawn_read` is fatal.
abbrev pub client_result : {A : Type 0} → Outcome A → Result ClientError A
client_result (done a) = ok a
client_result (failed e) = err (core e)
client_result panicked = err fatal

module _ {Index : Type 0} where
  infixl 5 ◌>>=◌ ◌>>◌
  abbrev pub after : {A B : Type 0} → (A → Call Index B) → Result ClientError A → Call Index B
  after f (ok a) c = f a c
  after f (err e) c = (err e, c)

  abbrev pub ◌>>=◌ : {A B : Type 0} → Call Index A → (A → Call Index B) → Call Index B
  ◌>>=◌ m f c = let (r, c') = m c in after f r c'

  abbrev pub ◌>>◌ : {B : Type 0} → Call Index (Unit {0}) → Call Index B → Call Index B
  m >> k = m >>= λ _. k

  abbrev pub pure : {A : Type 0} → A → Call Index A
  pure a c = (ok a, c)

  abbrev pub run : {A : Type 0} → State.Action (Catalog Index) A → Call Index A
  run m c = let (r, c') = m c in (client_result r, c')

module _ {json : JsonApi} (tantivy : TantivyApi json) (ext : Externals) (raft : Raft tantivy.Index)
    (self_id : ℕ) where
  open tantivy use {Index}

  unfoldable pub client_write : Proto.Command → Call Index Response
  unfolding classify_write
  client_write cmd c = let (r, c') = raft.client_write cmd c in (map_err classify_write r, c')

  unfoldable pub ensure_leader : Call Index (Unit {0})
  unfolding forward_or_unavailable
  ensure_leader c =
      if is_leader self_id (raft.metrics c).current_leader
      then (ok tt, c)
      else (err (forward_or_unavailable (raft.metrics c)), c)

  unfoldable pub add_learner : ℕ → Text → Call Index (Unit {0})
  unfolding classify_write
  add_learner id rpc_addr c =
      let (r, c') = raft.add_learner id (record { node_id = id; rpc_addr = rpc_addr }) true c in
      (map_ok (λ response. tt) (map_err classify_write r), c')

  unfoldable pub change_membership : BTreeSet ℕ → Bool → Call Index (Unit {0})
  unfolding classify_write
  change_membership members retain c =
      let (r, c') = raft.replace_all_voters members retain c in
      (map_ok (λ response. tt) (map_err classify_write r), c')

  unfoldable pub init :
      Node → BTreeMap ℕ Node → Option (BTreeMap ℕ Node) → Result ClientError (Unit {0})
  unfolding classify_initialize default_members
  init self_node seed_peers none =
      map_err classify_initialize (raft.initialize (default_members self_id self_node seed_peers))
  init self_node seed_peers (some members) = map_err classify_initialize (raft.initialize members)

  unfoldable pub create_collection : ℕ → Text → Mapping → Call Index CreateOutcome
  unfolding ensure_leader build_create_command client_write
  create_collection uuid name mapping = do
    ensure_leader
    cmd ← run (build_create_command ext uuid name mapping)
    elim cmd [
      | some cmd ↦ (do
        response ← client_write cmd
        pure (record { mapping = mapping; created = true }))
      | none ↦ pure (record { mapping = mapping; created = false })
    ]

  unfoldable pub index : ℕ → Text → Option Text → List ℕ → Call Index WriteOutcome
  unfolding ensure_leader build_index_command client_write
  index uuid collection id source = do
    ensure_leader
    cmd ← run (build_index_command tantivy ext uuid collection id source)
    resp ← client_write cmd
    pure (record { id = resp.id; created = resp.created })

  unfoldable pub delete : Text → Text → Call Index (Unit {0})
  unfolding ensure_leader build_delete_command client_write
  delete collection id = do
    ensure_leader
    cmd ← run (build_delete_command collection id)
    response ← client_write cmd
    pure tt

  unfoldable pub drop_collection : Text → Call Index (Unit {0})
  unfolding ensure_leader build_drop_command client_write
  drop_collection name = do
    ensure_leader
    cmd ← run (build_drop_command name)
    response ← client_write cmd
    pure tt

  unfoldable pub linearizable_get : Text → Text → Call Index (List ℕ)
  unfolding classify_read mark_or_default commit_collection get_document
  linearizable_get collection id = do
    λ c. let (r, c') = raft.ensure_linearizable c in (map_err classify_read r, c')
    last ← λ c. (ok (raft.metrics c).last_applied, c)
    run (
        State.◌>>◌ (commit_collection tantivy ext collection (mark_or_default last))
          (get_document tantivy ext collection id))

  unfoldable pub search_leader : Text → Text → ℕ → ℕ → Call Index (SearchResults tantivy.Score)
  unfolding ensure_leader search
  search_leader collection query limit offset = do
    ensure_leader
    run (search tantivy ext collection query limit offset)

  unfoldable pub describe_local : Text → Call Index Mapping
  unfolding describe
  describe_local name = run (describe name)

  -- One turn of `checkpoint_loop`; a failure is only logged.
  unfoldable pub checkpoint_turn : Catalog Index → Catalog Index
  unfolding checkpoint_applied mark_of_log_id
  checkpoint_turn c = elim (raft.metrics c).last_applied [
    | none ↦ c
    | some applied ↦ (checkpoint_applied tantivy ext (mark_of_log_id applied) c).1
  ]
