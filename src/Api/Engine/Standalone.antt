-- ===== src/Api/Engine/Standalone.antt =====
-- The engine of a single node, `StandaloneEngine` of crates/api/src/engine.rs, over the catalog.
use lumen.Base.{ℕ, Text, Option, List}
use lumen.Core.Json.{JsonApi}
use lumen.Core.Mapping.{Mapping}
use lumen.Core.Search.{SearchResults}
use lumen.Core.Tantivy.{TantivyApi}
use lumen.Core.Wal.{Externals}
use lumen.Core.Catalog.State.{Catalog, Action}
use lumen.Core.Catalog.State as State
use lumen.Core.Catalog.Open as Open
use lumen.Core.Catalog.Writes as Writes
use lumen.Api.Engine.{Engine, Call, CreateOutcome, WriteOutcome, core_result, pure, ◌>>=◌}

-- `run`
unfoldable pub run : {S A : Type 0} → Action S A → Call S A
unfolding core_result
run f c = let (r, c') = f c in (core_result r, c')

module _ {json : JsonApi} (tantivy : TantivyApi json) (ext : Externals) where
  open tantivy use {Index, Score}

  -- The mapping of the collection that `create` returns is the one that stands under the name.
  unfoldable pub create_collection : ℕ → Text → Mapping → Call (Catalog Index) CreateOutcome
  unfolding run Writes.create Writes.describe
  create_collection uuid name mapping = do
    created ← run (Writes.create tantivy ext uuid name mapping)
    stored ← run (Writes.describe name)
    pure (record { mapping = stored; created = created })

  unfoldable pub drop_collection : Text → Call (Catalog Index) (Unit {0})
  unfolding run Writes.drop_collection
  drop_collection name = run (Writes.drop_collection tantivy ext name)

  unfoldable pub index : ℕ → Text → Option Text → List ℕ → Call (Catalog Index) WriteOutcome
  unfolding run Writes.upsert_document
  index uuid name id source = do
    (id', created) ← run (Writes.upsert_document tantivy ext uuid name id source)
    pure (record { id = id'; created = created })

  unfoldable pub delete : Text → Text → Call (Catalog Index) (Unit {0})
  unfolding run Writes.delete_document
  delete name id = do existed ← run (Writes.delete_document tantivy ext name id); pure tt

  unfoldable pub get_document : Text → Text → Call (Catalog Index) (List ℕ)
  unfolding run Writes.get_document
  get_document name id = run (Writes.get_document tantivy ext name id)

  unfoldable pub search : Text → Text → ℕ → ℕ → Call (Catalog Index) (SearchResults Score)
  unfolding run Writes.search
  search name query limit offset = run (Writes.search tantivy ext name query limit offset)

  unfoldable pub list : Call (Catalog Index) (List Text)
  unfolding run Open.list
  list = run (State.gets Open.list)

  unfoldable pub describe : Text → Call (Catalog Index) Mapping
  unfolding run Writes.describe
  describe name = run (Writes.describe name)

  unfoldable pub standalone : Engine (Catalog Index) Score
  unfolding create_collection drop_collection index delete get_document search list describe
  standalone = record {
    create_collection = create_collection;
    drop_collection = drop_collection;
    index = index;
    delete = delete;
    get_document = get_document;
    search = search;
    list = list;
    describe = describe;
  }
