-- ===== src/Api/Errors/Routing.antt =====
-- What a client is told by a node that is not the leader (crates/api/src/error.rs over
-- crates/cluster/src/cluster.rs).
use lumen.Base.{ℕ, Text, bytes, Bool, true, false, Option, some, List, [], err, ◌≡◌, refl}
use lumen.Core.Json.{JsonApi}
use lumen.Core.Tantivy.{TantivyApi}
use lumen.Core.Wal.{Externals}
use lumen.Core.Catalog.State.{Catalog}
use lumen.Proto.Wire.{Node}
use lumen.Cluster.Client.{Raft, ClientError, is_leader, forward_or_unavailable, index}
use lumen.Cluster.Client.Reading.{refused}
use lumen.Api.Errors.{leader_at, from_client_error, into_response, forward_response, body}

module _ (is_header_value : Text → Bool) {json : JsonApi} (tantivy : TantivyApi json)
    (ext : Externals) (raft : Raft tantivy.Index) (self_id : ℕ) where
  open tantivy use {Index}

  -- A write to a node that is not the leader, but knows the leader and its address, changes nothing
  -- and is answered by a redirect with status 307 to that address.
  pub index-redirected :
      (c : Catalog Index) (uuid leader : ℕ) (node : Node) (name : Text) (given : Option Text)
      (source : List ℕ)
      → is_leader self_id (raft.metrics c).current_leader ≡ false
      → (raft.metrics c).current_leader ≡ some leader
      → (raft.metrics c).get_node leader ≡ some node
      → is_header_value node.rpc_addr ≡ true
      → (e : ClientError) × (index tantivy ext raft self_id uuid name given source c ≡ (err e, c))
        × (into_response is_header_value (from_client_error e) ≡ record {
          status = 307;
          kind = bytes "forward_to_leader";
          message = leader_at node.rpc_addr;
          location = some node.rpc_addr;
        })
  unfolding forward_or_unavailable into_response from_client_error forward_response body
  index-redirected c uuid leader node name given source other known at good = (
    forward_or_unavailable (raft.metrics c),
    (refused tantivy ext raft self_id c uuid 0 0 name name name given (record { fields = [] })
        source other).1,
    rw (known, forward_or_unavailable, at, good) refl,
  )
