-- ===== src/Api/Server.antt =====
-- The server around the engines: the checkpoints of crates/api/src/lib.rs and the management calls
-- of crates/api/src/cluster.rs.
use lumen.Base.{
  ℕ, Text, Bool, List, [], ◌∷◌, map, Result, ok, map_err, ◌>>=◌, BTreeMap, insert_all, nat_ord,
}
use lumen.Core.Json.{JsonApi}
use lumen.Core.Tantivy.{TantivyApi}
use lumen.Core.Wal.{Externals}
use lumen.Core.Catalog.State.{Catalog}
use lumen.Core.Catalog.Writes.{checkpoint}
use lumen.Proto.Wire.{Node}
use lumen.Cluster.Client.{Raft, init}
use lumen.Cluster.Client as Client
use lumen.Api.Errors.{ApiError, from_client_error}
use lumen.Api.Engine.{Call}
use lumen.Api.Engine as Engine
use lumen.Api.Engine.Clustered.{asked}
use lumen.Api.Peers.{parse_init_members}

-- What wakes the loop of checkpoints.
pub data Wake : Type 0 where
  tick shutdown : Wake

module _ {json : JsonApi} (tantivy : TantivyApi json) (ext : Externals) where
  open tantivy use {Index}

  -- A checkpoint that fails is only logged.
  unfoldable pub run_checkpoint : Catalog Index → Catalog Index
  unfolding checkpoint
  run_checkpoint c = (checkpoint tantivy ext c).1

  -- The loop over what wakes it. Between two turns the requests are served: each turn's `serve` is
  -- what they do to the catalog.
  unfoldable pub checkpoint_loop :
      List (Wake × (Catalog Index → Catalog Index)) → Catalog Index → Catalog Index
  unfolding run_checkpoint
  checkpoint_loop [] c = c
  checkpoint_loop ((tick, serve) ∷ turns) c = checkpoint_loop turns (run_checkpoint (serve c))
  checkpoint_loop ((shutdown, serve) ∷ turns) c = run_checkpoint (serve c)

module _ {json : JsonApi} (tantivy : TantivyApi json) (ext : Externals) (raft : Raft tantivy.Index)
    (self_id : ℕ) where
  open tantivy use {Index}

  unfoldable pub init_handler :
      (List ℕ → Result Text (List (ℕ × Text))) → Node → BTreeMap ℕ Node → List ℕ → Result ApiError ℕ
  unfolding parse_init_members init from_client_error
  init_handler from_slice self_node seed_peers body = do
    members ← parse_init_members from_slice body
    started ← map_err from_client_error (init tantivy ext raft self_id self_node seed_peers members)
    ok 200

  -- `add_learner` and `change_membership` on the parts of their bodies.
  unfoldable pub add_learner_handler : ℕ → Text → Call (Catalog Index) ℕ
  unfolding asked Client.add_learner
  add_learner_handler node_id rpc_addr =
      Engine.◌>>=◌ (asked (Client.add_learner tantivy ext raft self_id node_id rpc_addr))
        (λ added. Engine.pure 200)

  unfoldable pub change_membership_handler : List ℕ → Bool → Call (Catalog Index) ℕ
  unfolding asked Client.change_membership insert_all
  change_membership_handler members retain =
      Engine.◌>>=◌
        (asked (
          Client.change_membership tantivy ext raft self_id
            (insert_all (map (λ m. (m, tt)) members) []) retain))
        (λ changed. Engine.pure 200)
