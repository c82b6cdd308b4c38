-- ===== src/Api/Engine/Clustered.antt =====
-- The engine of a cluster's node, `ClusterEngine` of crates/api/src/engine.rs: the calls of the
-- cluster with the errors of the HTTP layer.
use lumen.Base.{ℕ, Text, Option, List, ok, map_err}
use lumen.Core.Json.{JsonApi}
use lumen.Core.Mapping.{Mapping}
use lumen.Core.Search.{SearchResults}
use lumen.Core.Tantivy.{TantivyApi}
use lumen.Core.Wal.{Externals}
use lumen.Core.Catalog.State.{Catalog}
use lumen.Core.Catalog.Open as Open
use lumen.Cluster.Client.{Raft}
use lumen.Cluster.Client as Client
use lumen.Api.Errors.{from_client_error}
use lumen.Api.Engine.{Engine, Call, CreateOutcome, WriteOutcome, pure, ◌>>=◌}

-- `?` on a call of the cluster.
unfoldable pub asked : {Index A : Type 0} → Client.Call Index A → Call (Catalog Index) A
unfolding from_client_error
asked m c = let (r, c') = m c in (map_err from_client_error r, c')

module _ {json : JsonApi} (tantivy : TantivyApi json) (ext : Externals) (raft : Raft tantivy.Index)
    (self_id : ℕ) where
  open tantivy use {Index, Score}

  unfoldable pub create_collection : ℕ → Text → Mapping → Call (Catalog Index) CreateOutcome
  unfolding asked Client.create_collection
  create_collection uuid name mapping = do
    outcome ← asked (Client.create_collection tantivy ext raft self_id uuid name mapping)
    pure (record { mapping = outcome.mapping; created = outcome.created })

  unfoldable pub drop_collection : Text → Call (Catalog Index) (Unit {0})
  unfolding asked Client.drop_collection
  drop_collection name = asked (Client.drop_collection tantivy ext raft self_id name)

  unfoldable pub index : ℕ → Text → Option Text → List ℕ → Call (Catalog Index) WriteOutcome
  unfolding asked Client.index
  index uuid name id source = do
    outcome ← asked (Client.index tantivy ext raft self_id uuid name id source)
    pure (record { id = outcome.id; created = outcome.created })

  unfoldable pub delete : Text → Text → Call (Catalog Index) (Unit {0})
  unfolding asked Client.delete
  delete name id = asked (Client.delete tantivy ext raft self_id name id)

  unfoldable pub get_document : Text → Text → Call (Catalog Index) (List ℕ)
  unfolding asked Client.linearizable_get
  get_document name id = asked (Client.linearizable_get tantivy ext raft self_id name id)

  unfoldable pub search : Text → Text → ℕ → ℕ → Call (Catalog Index) (SearchResults Score)
  unfolding asked Client.search_leader
  search name query limit offset =
      asked (Client.search_leader tantivy ext raft self_id name query limit offset)

  unfoldable pub list : Call (Catalog Index) (List Text)
  unfolding Open.list
  list c = (ok (Open.list c), c)

  unfoldable pub describe : Text → Call (Catalog Index) Mapping
  unfolding asked Client.describe_local
  describe name = asked (Client.describe_local tantivy ext raft self_id name)

  unfoldable pub clustered : Engine (Catalog Index) Score
  unfolding create_collection drop_collection index delete get_document search list describe
  clustered = record {
    create_collection = create_collection;
    drop_collection = drop_collection;
    index = index;
    delete = delete;
    get_document = get_document;
    search = search;
    list = list;
    describe = describe;
  }
