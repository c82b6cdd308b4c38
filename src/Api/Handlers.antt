-- ===== src/Api/Handlers.antt =====
-- The HTTP handlers of crates/api/src/handlers.rs over an engine. What axum takes from a request
-- (the path, the query, the body) is an argument; serde_json's reading of a mapping and its texts
-- for errors are a parameter. The new random uuid and the time a search took are arguments.
pub mod Written
pub mod Found
use lumen.Base.{
  ℕ, Text, Bool, true, false, Option, none, some, List, Result, ok, err, ok_or, map_err, try_map,
  if◌then◌else◌,
}
use lumen.Base as Base
use lumen.Core.Error.{Error}
use lumen.Core.Json.{JsonApi}
use lumen.Core.Mapping.{Mapping, MappingDto, dto_try_from}
use lumen.Core.Search.{SearchHit, SearchResults}
use lumen.Api.Errors.{ApiError, mapping, internal}
use lumen.Api.Engine.{Engine, Call, pure, lift, ◌>>=◌}

-- `serde_json::from_slice` of the form of a mapping, and the text that it makes of the mapping's
-- own errors.
pub record MappingJson : Type 0 where
  pub from_slice : List ℕ → Result Text MappingDto
  pub custom : Error → Text

abbrev pub default_limit : ℕ
default_limit = 10

pub data WriteResult : Type 0 where
  created updated : WriteResult

pub record IndexResponse : Type 0 where
  pub id : Text
  pub result : WriteResult

pub record GetResponse (json : JsonApi) : Type 0 where
  pub id : Text
  pub source : json.Value

pub record Hit (json : JsonApi) (Score : Type 0) : Type 0 where
  pub id : Text
  pub score : Score
  pub source : json.Value

pub record SearchResponse (json : JsonApi) (Score : Type 0) : Type 0 where
  pub hits : List (Hit json Score)
  pub total : ℕ
  pub took_ms : ℕ

pub record SearchParams : Type 0 where
  pub q : Text
  pub limit : Option ℕ
  pub offset : Option ℕ

abbrev pub unwrap_or : Option ℕ → ℕ → ℕ
unwrap_or none default = default
unwrap_or (some n) default = n

-- A response with its status.
pub record Reply (A : Type 0) : Type 0 where
  pub status : ℕ
  pub body : A

unfoldable pub index_response : Text → Bool → IndexResponse
index_response id new = record { id = id; result = if new then created else updated }

module _ (json : JsonApi) where
  unfoldable pub parse_source : List ℕ → Result ApiError json.Value
  parse_source bytes = ok_or (json.from_slice bytes) internal

  module _ {Score : Type 0} where
    unfoldable pub hit_response : SearchHit Score → Result ApiError (Hit json Score)
    unfolding parse_source
    hit_response hit =
        Base.◌>>=◌ (parse_source hit.source)
          (λ source. ok (record { id = hit.id; score = hit.score; source = source }))

    unfoldable pub search_response :
        SearchResults Score → ℕ → Result ApiError (SearchResponse json Score)
    unfolding try_map hit_response
    search_response results took_ms =
        Base.◌>>=◌ (try_map hit_response results.hits)
          (λ hits. ok (record { hits = hits; total = results.total; took_ms = took_ms }))

unfoldable pub parse_mapping : MappingJson → List ℕ → Result ApiError Mapping
unfolding dto_try_from
parse_mapping parser body =
    Base.◌>>=◌ (map_err mapping (parser.from_slice body))
      (λ dto. map_err (λ e. mapping (parser.custom e)) (dto_try_from dto))

module _ (json : JsonApi) {S Score : Type 0} (engine : Engine S Score) where
  unfoldable pub create_collection : MappingJson → ℕ → Text → List ℕ → Call S (Reply Mapping)
  unfolding parse_mapping
  create_collection parser uuid name body = do
    parsed ← lift (parse_mapping parser body)
    outcome ← engine.create_collection uuid name parsed
    pure (record { status = if outcome.created then 201 else 200; body = outcome.mapping })

  unfoldable pub list_collections : Call S (Reply (List Text))
  list_collections = do
    collections ← engine.list
    pure (record { status = 200; body = collections })

  unfoldable pub describe_collection : Text → Call S (Reply Mapping)
  describe_collection name = do
    stored ← engine.describe name
    pure (record { status = 200; body = stored })

  unfoldable pub drop_collection : Text → Call S (Reply (Unit {0}))
  drop_collection name = do
    dropped ← engine.drop_collection name
    pure (record { status = 204; body = tt })

  unfoldable pub index_document : ℕ → Text → List ℕ → Call S (Reply IndexResponse)
  unfolding index_response
  index_document uuid name body = do
    outcome ← engine.index uuid name none body
    pure (record { status = 201; body = index_response outcome.id true })

  unfoldable pub put_document : ℕ → Text → Text → List ℕ → Call S (Reply IndexResponse)
  unfolding index_response
  put_document uuid name id body = do
    outcome ← engine.index uuid name (some id) body
    pure (record {
      status = if outcome.created then 201 else 200;
      body = index_response outcome.id outcome.created;
    })

  unfoldable pub get_document : Text → Text → Call S (Reply (GetResponse json))
  unfolding parse_source
  get_document name id = do
    stored ← engine.get_document name id
    source ← lift (parse_source json stored)
    pure (record { status = 200; body = record { id = id; source = source } })

  unfoldable pub delete_document : Text → Text → Call S (Reply (Unit {0}))
  delete_document name id = do
    deleted ← engine.delete name id
    pure (record { status = 204; body = tt })

  unfoldable pub search_documents :
      ℕ → Text → SearchParams → Call S (Reply (SearchResponse json Score))
  unfolding search_response
  search_documents took_ms name params = do
    results ←
        engine.search name params.q (unwrap_or params.limit default_limit)
          (unwrap_or params.offset 0)
    response ← lift (search_response json results took_ms)
    pure (record { status = 200; body = response })
