-- ===== src/Examples/Clients.antt =====
-- A node of a cluster whose leader is node 1.
use lumen.Base.{
  ◌∷◌, ◌≡◌, refl, [], ok, err, some, none, true, false, get, text_cmp, text_ord, nat_ord, some_inj,
  sym, ap, ◌∙◌, bytes, arith,
}
use lumen.Core.Error.{done, failed, document_not_found}
use lumen.Core.Mapping.Schema.{to_schema}
use lumen.Core.Document.{Document, text_value, bytes_value}
use lumen.Core.Catalog.Store.{mark_of}
use lumen.Core.Catalog.Writes.{get_document}
use lumen.Core.Catalog.Applied.{get_document-apply_delete_doc}
use lumen.Core.Tantivy.{LogMark, default_mark}
use lumen.Core.Catalog.State.{Catalog}
use lumen.Core.Catalog.Apply.{apply_index, apply_delete_doc, commit_collection}
use lumen.Proto.Command as Proto
use lumen.Cluster.StateMachine.{default_response, mark_of_log_id}
use lumen.Cluster.Client.{
  Raft, ClientError, follower, forward_to_leader, create_collection, index, delete, drop_collection,
  search_leader, linearizable_get,
}
use lumen.Cluster.Client.Reading.{IsReferral, not_leader, linearizable_get-apply_index}
use lumen.Api.Errors.{from_client_error, into_response, leader_at}
use lumen.Api.Errors.Routing.{index-redirected}
use lumen.Examples.Instances.{Memory, texts, memory, numbers}
use lumen.Examples.RaftLogs.{at}
use lumen.Examples.Documents.{tags, shelf, library, shelf_found, unmarked_before}
use lumen.Core.Tantivy.{having}
use lumen.Core.Document.{value_of}
use lumen.Core.Mapping.{field}
use lumen.Core.Mapping.Schema.{add_fields}
use lumen.Core.Document.{add_values}
use lumen.Core.Mapping.Schema.{to_schema}
use lumen.Core.Mapping.Schema.{get_field}
use lumen.Core.Document.{build_doc}
use lumen.Core.Collection.{committed_mark}
use lumen.Core.Collection.{commit}
use lumen.Core.Tantivy.{without}

abbrev pub raft : Raft Memory
raft = record {
  metrics = λ c. record {
    id = 2;
    current_term = 1;
    state = follower;
    last_log_index = some 9;
    voter_ids = 1 ∷ 2 ∷ [];
    nodes = [];
    current_leader = some 1;
    last_applied = some (at 9).log_id;
    get_node = λ n. some (record { node_id = n; rpc_addr = bytes "one:7000" });
  };
  client_write = λ cmd c. (ok default_response, c);
  ensure_linearizable = λ c. (ok tt, c);
  initialize = λ members. ok tt;
  add_learner = λ id node blocking c. (ok default_response, c);
  replace_all_voters = λ members retain c. (ok default_response, c);
}

abbrev elsewhere : ClientError
elsewhere = forward_to_leader (some (record { node_id = 1; rpc_addr = bytes "one:7000" }))

not_leader_example :
    (answer : ClientError) × IsReferral (raft.metrics library) answer
    × (create_collection memory numbers raft 2 7 (bytes "new") tags library ≡ (err answer, library))
    × (index memory numbers raft 2 7 (bytes "new") none [] library ≡ (err answer, library))
    × (delete memory numbers raft 2 (bytes "new") (bytes "a") library ≡ (err answer, library))
    × (drop_collection memory numbers raft 2 (bytes "new") library ≡ (err answer, library))
    × (search_leader memory numbers raft 2 (bytes "new") (bytes "q") 10 0 library
        ≡ (err answer, library))
not_leader_example =
    not_leader memory numbers raft 2 library 7 10 0 (bytes "new") (bytes "a") (bytes "q") none tags
      [] refl

abbrev at_eight : LogMark
at_eight = record { term = 1; node = 1; index = 8 }

abbrev document : Proto.IndexDocument
document = record { collection = bytes "shelf"; id = bytes "a"; source = bytes "tag" }

abbrev applied : Catalog Memory
applied = (apply_index memory numbers at_eight document library).1

write_applied :
    apply_index memory numbers at_eight document library
    ≡ (done (record { id = bytes "a"; created = true }), applied)
unfolding apply_index committed_mark build_doc get_field to_schema add_values add_fields field
    value_of having
write_applied = refl

abbrev committed : Catalog Memory
committed =
    (commit_collection memory numbers (bytes "shelf") (mark_of_log_id (at 9).log_id) applied).1

write_committed :
    commit_collection memory numbers (bytes "shelf") (mark_of_log_id (at 9).log_id) applied
    ≡ (done tt, committed)
unfolding apply_index commit_collection mark_of_log_id lumen.Core.Collection.committed_mark
    lumen.Core.Document.build_doc lumen.Core.Mapping.Schema.get_field
    lumen.Core.Mapping.Schema.to_schema lumen.Core.Document.add_values
    lumen.Core.Mapping.Schema.add_fields lumen.Core.Mapping.field lumen.Core.Document.value_of
    commit
write_committed = refl

linearizable_get-apply_index_example :
    linearizable_get memory numbers raft 1 (bytes "shelf") (bytes "a") applied
    ≡ (ok (bytes "tag"), committed)
linearizable_get-apply_index_example =
    linearizable_get-apply_index memory numbers raft 1 at_eight default_mark (at 9).log_id document
      shelf (record { id = bytes "a"; created = true }) library applied committed shelf_found
      unmarked_before (omega arith) write_applied refl refl (omega arith) write_committed

abbrev removal : Proto.DeleteDocument
removal = record { collection = bytes "shelf"; id = bytes "a" }

abbrev at_ten : LogMark
at_ten = record { term = 1; node = 1; index = 10 }

abbrev written_document : Document texts
written_document =
    (bytes "_id", text_value (bytes "a"))
    ∷ (bytes "_source", bytes_value (bytes "tag"))
    ∷ (bytes "tag", text_value (bytes "tag"))
    ∷ []

abbrev kept_index : Memory
kept_index = record {
  schema = to_schema tags;
  payload = some (1 ∷ 1 ∷ 9 ∷ []);
  searchable = written_document ∷ [];
  pending = written_document ∷ [];
}

kept_found : get 40 committed.dirs ≡ some kept_index
unfolding get apply_index commit_collection committed_mark build_doc get_field to_schema add_values
    add_fields field value_of mark_of_log_id commit without
kept_found = refl

shelf_kept : get (bytes "shelf") committed.collections ≡ some shelf
unfolding get text_cmp apply_index commit_collection committed_mark build_doc get_field to_schema
    add_values add_fields field value_of mark_of_log_id
shelf_kept = refl

marked_nine : mark_of memory shelf committed ≡ (done (mark_of_log_id (at 9).log_id), committed)
unfolding mark_of apply_index commit_collection mark_of_log_id committed_mark build_doc get_field
    to_schema add_values add_fields field value_of commit
marked_nine = refl

abbrev removed : Catalog Memory
removed = (apply_delete_doc memory numbers at_ten removal committed).1

removal_applied :
    apply_delete_doc memory numbers at_ten removal committed
    ≡ (done (record { id = bytes "a"; created = false }), removed)
unfolding apply_delete_doc apply_index commit_collection committed_mark build_doc get_field
    to_schema add_values add_fields field value_of mark_of_log_id commit
removal_applied = refl

abbrev emptied : Catalog Memory
emptied = (commit_collection memory numbers (bytes "shelf") at_ten removed).1

removal_committed :
    commit_collection memory numbers (bytes "shelf") at_ten removed ≡ (done tt, emptied)
unfolding apply_delete_doc apply_index commit_collection committed_mark build_doc get_field
    to_schema add_values add_fields field value_of mark_of_log_id commit
removal_committed = refl

get_document-apply_delete_doc_example :
    get_document memory numbers (bytes "shelf") (bytes "a") emptied
    ≡ (failed (document_not_found (bytes "a")), emptied)
unfolding mark_of_log_id
get_document-apply_delete_doc_example =
    get_document-apply_delete_doc memory numbers at_ten (mark_of_log_id (at 9).log_id) at_ten
      removal shelf (record { id = bytes "a"; created = false }) committed removed emptied
      shelf_kept marked_nine (omega arith)
      (λ i e. ap (λ x. x.schema) (some_inj i kept_index (sym e ∙ kept_found))) removal_applied
      (omega arith) removal_committed

index-redirected_example :
    (e : ClientError) × (index memory numbers raft 2 7 (bytes "shelf") none [] library
      ≡ (err e, library))
    × (into_response (λ a. true) (from_client_error e) ≡ record {
      status = 307;
      kind = bytes "forward_to_leader";
      message = leader_at (bytes "one:7000");
      location = some (bytes "one:7000");
    })
index-redirected_example =
    index-redirected (λ a. true) memory numbers raft 2 library 7 1
      (record { node_id = 1; rpc_addr = bytes "one:7000" }) (bytes "shelf") none [] refl refl refl
      refl
