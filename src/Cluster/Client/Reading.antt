-- ===== src/Cluster/Client/Reading.antt =====
-- Reads and writes through a node of the cluster (crates/cluster/src/cluster.rs).
use lumen.Base.{
  subst, sym, none, Option-cases, inl, inr, ℕ, ◌≤◌, ◌<◌, Text, text_ord, nat_ord, false, Option,
  some, List, ok, err, get, ◌≡◌, refl,
}
use lumen.Core.Error.{done}
use lumen.Core.Json.{JsonApi}
use lumen.Core.Mapping.{Mapping}
use lumen.Core.Tantivy.{TantivyApi, LogMark}
use lumen.Core.Wal.{Externals}
use lumen.Core.Catalog.State.{Catalog, Entry}
use lumen.Core.Catalog.Store.{mark_of}
use lumen.Core.Catalog.Apply.{ApplyOutcome, apply_index, commit_collection}
use lumen.Core.Catalog.Applied.{get_document-apply_index}
use lumen.Proto.Command as Proto
use lumen.Proto.Openraft.{LogId}
use lumen.Proto.Wire.{Node}
use lumen.Cluster.StateMachine.{mark_of_log_id}
use lumen.Cluster.Client.{
  Metrics, ClientError, unavailable, forward_to_leader, Raft, forward_or_unavailable, is_leader,
  mark_or_default, ensure_leader, create_collection, index, delete, drop_collection, search_leader,
  linearizable_get,
}

-- What a node that is not the leader answers: the address of a leader that is known and among the
-- nodes, and otherwise that it is unavailable.
pub data IsReferral (metrics : Metrics) : ClientError → Type 0 where
  no_leader : metrics.current_leader ≡ none → IsReferral metrics unavailable
  unknown_leader :
      (leader_id : ℕ)
      → metrics.current_leader ≡ some leader_id
      → metrics.get_node leader_id ≡ none
      → IsReferral metrics unavailable
  known_leader :
      (leader_id : ℕ) (node : Node)
      → metrics.current_leader ≡ some leader_id
      → metrics.get_node leader_id ≡ some node
      → IsReferral metrics (forward_to_leader (some node))

forward_or_unavailable-IsReferral :
    (metrics : Metrics) → IsReferral metrics (forward_or_unavailable metrics)
unfolding forward_or_unavailable
forward_or_unavailable-IsReferral metrics = elim (Option-cases metrics.current_leader) [
  | inl e ↦ referred unavailable (rw (e, forward_or_unavailable) refl) (no_leader e)
  | inr (leader_id, e) ↦ elim (Option-cases (metrics.get_node leader_id)) [
    | inl f ↦
        referred unavailable (rw (e, forward_or_unavailable, f) refl) (unknown_leader leader_id e f)
    | inr (node, f) ↦
        referred (forward_to_leader (some node)) (rw (e, forward_or_unavailable, f) refl)
          (known_leader leader_id node e f)
  ]
]
  where
    referred :
        (answer : ClientError)
        → forward_or_unavailable metrics ≡ answer
        → IsReferral metrics answer
        → IsReferral metrics (forward_or_unavailable metrics)
    referred answer h r = subst (IsReferral metrics) (sym h) r

module _ {json : JsonApi} (tantivy : TantivyApi json) (ext : Externals) (raft : Raft tantivy.Index)
    (self_id : ℕ) where
  open tantivy use {Index}

  pub refused :
      (c : Catalog Index) (uuid limit offset : ℕ) (name id query : Text) (given : Option Text)
      (mapping : Mapping) (source : List ℕ)
      → is_leader self_id (raft.metrics c).current_leader ≡ false
      → (create_collection tantivy ext raft self_id uuid name mapping c
          ≡ (err (forward_or_unavailable (raft.metrics c)), c))
        × (index tantivy ext raft self_id uuid name given source c
            ≡ (err (forward_or_unavailable (raft.metrics c)), c))
        × (delete tantivy ext raft self_id name id c
            ≡ (err (forward_or_unavailable (raft.metrics c)), c))
        × (drop_collection tantivy ext raft self_id name c
            ≡ (err (forward_or_unavailable (raft.metrics c)), c))
        × (search_leader tantivy ext raft self_id name query limit offset c
            ≡ (err (forward_or_unavailable (raft.metrics c)), c))
  unfolding create_collection index delete drop_collection search_leader ensure_leader
  refused c uuid limit offset name id query given mapping source h = (
    rw (h, create_collection, ensure_leader) refl,
    rw (h, index, ensure_leader) refl,
    rw (h, delete, ensure_leader) refl,
    rw (h, drop_collection, ensure_leader) refl,
    rw (h, search_leader, ensure_leader) refl,
  )

  -- On a node that is not the leader, every write and every search leaves the catalog as it is and
  -- answers with the leader's address if the metrics have a leader that is among their nodes, and
  -- as unavailable if not.
  pub not_leader :
      (c : Catalog Index) (uuid limit offset : ℕ) (name id query : Text) (given : Option Text)
      (mapping : Mapping) (source : List ℕ)
      → is_leader self_id (raft.metrics c).current_leader ≡ false
      → (answer : ClientError) × IsReferral (raft.metrics c) answer
        × (create_collection tantivy ext raft self_id uuid name mapping c ≡ (err answer, c))
        × (index tantivy ext raft self_id uuid name given source c ≡ (err answer, c))
        × (delete tantivy ext raft self_id name id c ≡ (err answer, c))
        × (drop_collection tantivy ext raft self_id name c ≡ (err answer, c))
        × (search_leader tantivy ext raft self_id name query limit offset c ≡ (err answer, c))
  not_leader c uuid limit offset name id query given mapping source h =
      let all = refused c uuid limit offset name id query given mapping source h in
      (
        forward_or_unavailable (raft.metrics c),
        forward_or_unavailable-IsReferral (raft.metrics c),
        all.0,
        all.1,
        all.2,
        all.3,
        all.4,
      )

  -- A linearizable read gives the source that the last applied write of the document had: the write
  -- was applied with a number above the collection's committed mark, openraft confirms the leader,
  -- the applied log id is not below the write, and the commit of the collection succeeds.
  pub linearizable_get-apply_index :
      (mark m : LogMark) (id : LogId) (index : Proto.IndexDocument) (entry : Entry)
      (outcome : ApplyOutcome) (c c' c'' : Catalog Index)
      → get index.collection c.collections ≡ some entry
      → mark_of tantivy entry c ≡ (done m, c)
      → m.index < mark.index
      → apply_index tantivy ext mark index c ≡ (done outcome, c')
      → raft.ensure_linearizable c' ≡ (ok tt, c')
      → (raft.metrics c').last_applied ≡ some id
      → mark.index ≤ id.index
      → commit_collection tantivy ext index.collection (mark_of_log_id id) c' ≡ (done tt, c'')
      → linearizable_get tantivy ext raft self_id index.collection index.id c'
        ≡ (ok index.source, c'')
  unfolding linearizable_get mark_or_default mark_of_log_id
  linearizable_get-apply_index mark m id index entry outcome c c' c'' found q below h lin last le
        e =
      rw
        (
          lin,
          linearizable_get,
          last,
          e,
          get_document-apply_index tantivy ext mark m (mark_of_log_id id) index entry outcome c c'
              c'' found q below h le e,
        )
        refl
