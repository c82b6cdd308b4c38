-- ===== src/Examples/Servers.antt =====
-- Requests to a single node and to a node of a cluster.
use lumen.Base.{
  ◌<◌, ◌≤◌, ◌≡◌, ◌↔◌, inl, refl, ap, subst, Text, bytes, true, none, some, [], ◌∷◌, ◌++◌, ok, err,
  Result, List, get, text_ord, nat_ord, arith,
}
use lumen.Core.Error.{Outcome, done, failed, panicked}
use lumen.Core.Tantivy.{LogMark, default_mark, having}
use lumen.Core.Mapping.Schema.{to_schema, id_field, source_field}
use lumen.Core.Search.{source_by_id, system_fields}
use lumen.Core.Collection.{commit}
use lumen.Core.Collection.Contents.{IsKeyed}
use lumen.Core.Collection.Refinement.{
  Write, upsert, delete, specified_all, run_writes, source_by_id-run_writes,
}
use lumen.Core.Catalog.State.{Catalog, Entry}
use lumen.Core.Catalog.Store.{mark_of}
use lumen.Core.Catalog.Apply.{ApplyOutcome, apply_command}
use lumen.Core.Catalog.Writes.{checkpoint}
use lumen.Cluster.Client.{Raft, follower, RaftError, ClientWriteError, fatal_error}
use lumen.Cluster.StateMachine.{Response, default_response}
use lumen.Api.Engine.{WriteOutcome}
use lumen.Api.Engine.Standalone.{standalone}
use lumen.Api.Engine.Standalone as Standalone
use lumen.Api.Engine.Clustered.{clustered}
use lumen.Api.Engine.Clustered as Clustered
use lumen.Api.Engine.Agreement.{Applies, index-index}
use lumen.Api.Handlers.{
  Reply, SearchParams, SearchResponse, put_document, get_document, search_documents, index_response,
}
use lumen.Api.Handlers.Written.{get_document-put_document}
use lumen.Api.Handlers.Found.{search_documents-IsLimited}
use lumen.Api.Peers.{parse_peer, parse_u64}
use lumen.Api.Peers.Parsed.{IsFree, parse_peer_iff}
use lumen.Examples.Instances.{Memory, Value, object, texts, memory, numbers}
use lumen.Examples.Documents.{tags, library, unmarked_before, the_shelf}
use lumen.Core.Tantivy.{having}
use lumen.Core.Document.{value_of}
use lumen.Core.Mapping.{field}
use lumen.Core.Mapping.Schema.{add_fields}
use lumen.Core.Document.{add_values}
use lumen.Core.Document.{build_doc}
use lumen.Core.Log.{append}
use lumen.Core.Mapping.{validate_values}
use lumen.Core.Catalog.Store.{commit_entry}
use lumen.Core.Catalog.Store.{commit_each}
use lumen.Core.Tantivy.{stored}
use lumen.Core.Tantivy.{without}
use lumen.Core.Mapping.Schema.{get_field}

-- PUT /collections/shelf/documents/a with the body `tag`.
abbrev written : Catalog Memory
written =
    (put_document texts (standalone memory numbers) 7 (bytes "shelf") (bytes "a") (bytes "tag")
      library).1

put :
    put_document texts
      (standalone memory numbers)
      7
      (bytes "shelf")
      (bytes "a")
      (bytes "tag")
      library
    ≡ (ok (record { status = 201; body = index_response (bytes "a") true }), written)
unfolding put_document standalone validate_values append build_doc add_values add_fields field
    value_of having
put = refl

abbrev checked : Catalog Memory
checked = (checkpoint memory numbers written).1

checkpoint_done : checkpoint memory numbers written ≡ (done tt, checked)
unfolding checkpoint commit_each put_document standalone lumen.Core.Mapping.validate_values
    lumen.Core.Log.append lumen.Core.Document.build_doc lumen.Core.Document.add_values
    lumen.Core.Mapping.Schema.add_fields lumen.Core.Mapping.field lumen.Core.Document.value_of
    commit_entry commit
checkpoint_done = refl

get_document-put_document_example :
    (source : Value) × (some (object ((bytes "tag", bytes "tag") ∷ [])) ≡ some source)
    × (get_document texts (standalone memory numbers) (bytes "shelf") (bytes "a") checked ≡ (
      ok (record { status = 200; body = record { id = bytes "a"; source = source } }),
      checked,
    ))
get_document-put_document_example =
    get_document-put_document memory numbers 7 (bytes "shelf") (bytes "a") (bytes "tag")
      (record { status = 201; body = index_response (bytes "a") true }) library written checked put
      checkpoint_done

abbrev everything : SearchParams
everything = record { q = bytes "tag"; limit = none; offset = none }

abbrev found : Reply (SearchResponse texts (Unit {0}))
found = record {
  status = 200;
  body = record {
    hits =
        record { id = bytes "a"; score = tt; source = object ((bytes "tag", bytes "tag") ∷ []) }
        ∷ [];
    total = 1;
    took_ms = 5;
  };
}

abbrev at_eight : LogMark
at_eight = record { term = 1; node = 2; index = 8 }

abbrev answered :
    Outcome ApplyOutcome × Catalog Memory
    → Result (RaftError ClientWriteError) Response × Catalog Memory
answered (done o, c) = (ok (record { id = o.id; created = o.created }), c)
answered (failed e, c) = (err fatal_error, c)
answered (panicked, c) = (err fatal_error, c)

abbrev leading : Raft Memory
leading = record {
  metrics = λ c. record {
    id = 2;
    current_term = 1;
    state = follower;
    last_log_index = some 9;
    voter_ids = 2 ∷ [];
    nodes = [];
    current_leader = some 2;
    last_applied = none;
    get_node = λ n. none;
  };
  client_write = λ cmd c. answered (apply_command memory numbers at_eight cmd c);
  ensure_linearizable = λ c. (ok tt, c);
  initialize = λ members. ok tt;
  add_learner = λ id node blocking c. (ok default_response, c);
  replace_all_voters = λ members retain c. (ok default_response, c);
}

searched_alone :
    search_documents texts (standalone memory numbers) 5 (bytes "shelf") everything checked
    ≡ (ok found, checked)
unfolding search_documents standalone checkpoint commit_each put_document validate_values append
    build_doc add_values add_fields field value_of commit_entry commit without stored
searched_alone = refl

searched_led :
    search_documents texts (clustered memory numbers leading 2) 5 (bytes "shelf") everything checked
    ≡ (ok found, checked)
unfolding search_documents clustered checkpoint commit_each put_document standalone validate_values
    append build_doc add_values add_fields field value_of commit lumen.Core.Tantivy.without
    lumen.Core.Tantivy.stored
searched_led = refl

search_documents-IsLimited_example : (1 ≤ 10) × (1 ≤ 10)
search_documents-IsLimited_example =
    search_documents-IsLimited memory numbers leading 2 5 (bytes "shelf") everything found found
      checked checked checked checked searched_alone searched_led

abbrev accepted : WriteOutcome
accepted = record { id = bytes "a"; created = true }

written_alone :
    Standalone.index memory numbers 7 (bytes "shelf") (some (bytes "a")) (bytes "tag") library
    ≡ (ok accepted, written)
unfolding Standalone.index validate_values append build_doc get_field to_schema add_values
    add_fields field value_of having put_document standalone
written_alone = refl

leading-Applies : Applies memory numbers leading at_eight library
leading-Applies cmd o d h = ap answered h

unmarked :
    (entry : Entry)
    → get (bytes "shelf") library.collections ≡ some entry
    → (m : LogMark) × (mark_of memory entry library ≡ (done m, library)) × (m.index < 8)
unmarked entry f =
    subst (λ e. (m : LogMark) × (mark_of memory e library ≡ (done m, library)) × (m.index < 8))
      (the_shelf entry f) (default_mark, unmarked_before, omega arith)

index-index_example :
    Clustered.index memory numbers leading 2 7
      (bytes "shelf")
      (some (bytes "a"))
      (bytes "tag")
      library
    ≡ (ok accepted, record written { seq = library.seq; wal = library.wal })
index-index_example =
    index-index memory numbers leading 2 7 (bytes "shelf") (some (bytes "a")) (bytes "tag") accepted
      at_eight library written refl leading-Applies unmarked written_alone

abbrev empty_index : Memory
empty_index = record { schema = to_schema tags; payload = none; searchable = []; pending = [] }

-- Two upserts of one id, and an upsert and a delete of another.
abbrev writes : List (Write texts)
writes =
    upsert (bytes "a") (bytes "old") (object ((bytes "tag", bytes "old") ∷ []))
    ∷ upsert (bytes "b") (bytes "tag") (object ((bytes "tag", bytes "tag") ∷ []))
    ∷ upsert (bytes "a") (bytes "new") (object ((bytes "tag", bytes "new") ∷ []))
    ∷ delete (bytes "b")
    ∷ []

abbrev after_writes : Memory
after_writes = (run_writes memory tags writes empty_index).1

writes_run : run_writes memory tags writes empty_index ≡ (done tt, after_writes)
unfolding run_writes build_doc lumen.Core.Mapping.Schema.get_field to_schema add_values add_fields
    field value_of
writes_run = refl

abbrev after_commit : Memory
after_commit = (commit memory at_eight after_writes).1

writes_committed : commit memory at_eight after_writes ≡ (ok tt, after_commit)
unfolding commit
writes_committed = refl

empty_fields : system_fields empty_index.schema ≡ some (id_field, source_field)
unfolding system_fields to_schema
empty_fields = refl

empty-IsKeyed : IsKeyed empty_index.pending
unfolding having
empty-IsKeyed id = inl refl

source_by_id-run_writes_example :
    source_by_id memory after_commit (bytes "a") ≡ done (some (bytes "new"))
unfolding specified_all
source_by_id-run_writes_example =
    source_by_id-run_writes memory tags writes at_eight empty_index after_writes after_commit
      empty-IsKeyed empty_fields writes_run writes_committed (bytes "a")

parse_peer_iff_example : (parse_peer (bytes "7=host:80") ≡ ok (7, bytes "host:80")) ↔ (
    (text : Text) × (bytes "7=host:80" ≡ text ++ 61 ∷ bytes "host:80")
    × IsFree 61 text
    × (parse_u64 text ≡ some 7))
parse_peer_iff_example = parse_peer_iff (bytes "7=host:80") (bytes "host:80") 7

peer_parsed : parse_peer (bytes "7=host:80") ≡ ok (7, bytes "host:80")
unfolding parse_peer
peer_parsed = refl
