-- ===== src/Core/Catalog/Writes.antt =====
-- The calls of crates/core/src/catalog.rs on a single node, which write the log themselves, and
-- those that build the commands which a cluster replicates. A new random uuid is an argument.
use lumen.Base.{
  ℕ, Text, text_ord, text_cmp, nat_ord, Bool, true, false, Option, none, some, List, remove, ok,
  err, ok_or, if◌then◌else◌,
}
use lumen.Core.Error.{Fallible, schema_conflict, validation, document_not_found, invalid_json}
use lumen.Core.Json.{JsonApi}
use lumen.Core.Mapping.{Mapping, mapping_into, validate_document}
use lumen.Core.Mapping.Equality.{mapping_eq}
use lumen.Core.Tantivy.{TantivyApi}
use lumen.Core.Search.{source_by_id, SearchResults, execute}
use lumen.Core.Collection.{apply_upsert, apply_delete}
use lumen.Core.Wal.{Externals, append, trim}
use lumen.Core.Catalog.State.{Catalog, Entry, Action, pure, lift, gets, modify, ◌>>=◌, ◌>>◌}
use lumen.Core.Catalog.Names.{validate_name}
use lumen.Core.Catalog.Store.{
  lookup, get_entry, next_seq, with_index, read_index, drop_dir, install_collection, commit_all,
}
use lumen.Proto.Command as Proto

unfoldable pub command : Proto.Op → Proto.Command
command op = record { op = some op }

unfoldable pub wal_entry : ℕ → Proto.Op → Proto.WalEntry
unfolding command
wal_entry seq op = record { seq = seq; command = some (command op) }

module _ (ext : Externals) where
  -- `or_new_id` with the uuid that it draws.
  unfoldable pub or_new_id : ℕ → Option Text → Text
  or_new_id uuid none = ext.uuid_text uuid
  or_new_id uuid (some id) = id

  -- `wal.append(&wal_entry(self.next_seq(), op))`; its number is the result.
  unfoldable pub log_op : {Index : Type 0} → Proto.Op → Action (Catalog Index) ℕ
  unfolding next_seq append wal_entry
  log_op op = do
    seq ← next_seq
    wal ← gets (λ c. c.wal)
    wal' ← lift (append ext (wal_entry seq op) wal)
    modify (λ c. record c { wal = wal' })
    pure seq

-- `create` and `build_create_command` on what the catalog has under the name: an equal mapping is
-- no error, and `none` is a name that is free.
unfoldable pub existing_for : Text → Mapping → Option Entry → Fallible (Option Entry)
unfolding mapping_eq
existing_for name mapping none = ok none
existing_for name mapping (some entry) =
    if mapping_eq entry.mapping mapping then ok (some entry) else err (schema_conflict name)

module _ {Index : Type 0} where
  unfoldable pub describe : Text → Action (Catalog Index) Mapping
  unfolding get_entry
  describe name = do entry ← get_entry name; pure entry.mapping

  module _ (ext : Externals) where
    unfoldable pub build_create_command :
        ℕ → Text → Mapping → Action (Catalog Index) (Option Proto.Command)
    unfolding validate_name lookup existing_for command mapping_into
    build_create_command uuid name mapping = do
      lift (validate_name name)
      found ← gets (lookup name)
      existing ← lift (existing_for name mapping found)
      elim existing [
        | some entry ↦ pure none
        | none ↦ pure (
            some (
              command (
                Proto.create_collection (record {
                  collection = name;
                  uuid = ext.uuid_text uuid;
                  mapping = some (mapping_into mapping);
                }))))
      ]

  unfoldable pub build_delete_command : Text → Text → Action (Catalog Index) Proto.Command
  unfolding get_entry command
  build_delete_command collection id = do
    target ← get_entry collection
    pure (command (Proto.delete_document (record { collection = collection; id = id })))

  unfoldable pub build_drop_command : Text → Action (Catalog Index) Proto.Command
  unfolding get_entry command
  build_drop_command name = do
    target ← get_entry name
    pure (command (Proto.drop_collection (record { collection = name })))

module _ {json : JsonApi} (tantivy : TantivyApi json) (ext : Externals) where
  open tantivy use {Index}

  unfoldable pub build_index_command :
      ℕ → Text → Option Text → List ℕ → Action (Catalog Index) Proto.Command
  unfolding get_entry command validate_document or_new_id
  build_index_command uuid collection id source = do
    target ← get_entry collection
    parsed ← lift (ok_or (json.from_slice source) (validation invalid_json))
    lift (validate_document json target.mapping parsed)
    pure (
        command (
          Proto.index_document
            (record { collection = collection; id = or_new_id ext uuid id; source = source })))

  -- Whether the collection is new.
  unfoldable pub create : ℕ → Text → Mapping → Action (Catalog Index) Bool
  unfolding validate_name lookup existing_for log_op mapping_into install_collection
  create uuid name mapping = do
    lift (validate_name name)
    found ← gets (lookup name)
    existing ← lift (existing_for name mapping found)
    elim existing [
      | some entry ↦ pure false
      | none ↦ (do
        seq ← log_op ext (
            Proto.create_collection (record {
              collection = name;
              uuid = ext.uuid_text uuid;
              mapping = some (mapping_into mapping);
            }))
        install_collection tantivy name uuid mapping seq
        pure true)
    ]

  unfoldable pub drop_collection : Text → Action (Catalog Index) (Unit {0})
  unfolding get_entry log_op remove drop_dir text_cmp
  drop_collection name = do
    entry ← get_entry name
    seq ← log_op ext (Proto.drop_collection (record { collection = name }))
    modify (λ c. record c { collections = remove name c.collections })
    modify (drop_dir entry.uuid)

  -- The document's id, and whether it is new.
  unfoldable pub upsert_document :
      ℕ → Text → Option Text → List ℕ → Action (Catalog Index) (Text × Bool)
  unfolding get_entry validate_document or_new_id log_op with_index apply_upsert
  upsert_document uuid collection given source = do
    target ← get_entry collection
    parsed ← lift (ok_or (json.from_slice source) (validation invalid_json))
    lift (validate_document json target.mapping parsed)
    let id = or_new_id ext uuid given
    seq ←
        log_op ext
          (Proto.index_document (record { collection = collection; id = id; source = source }))
    created ← with_index target.uuid (apply_upsert tantivy target.mapping id source parsed)
    pure (id, created)

  unfoldable pub delete_document : Text → Text → Action (Catalog Index) Bool
  unfolding get_entry log_op with_index apply_delete
  delete_document collection id = do
    target ← get_entry collection
    seq ← log_op ext (Proto.delete_document (record { collection = collection; id = id }))
    with_index target.uuid (apply_delete tantivy id)

  unfoldable pub get_document : Text → Text → Action (Catalog Index) (List ℕ)
  unfolding get_entry read_index source_by_id
  get_document collection id = do
    target ← get_entry collection
    found ← read_index target.uuid (λ index. source_by_id tantivy index id)
    lift (ok_or found (document_not_found id))

  -- `c.get(name)?.search(query, limit, offset)`, as the engines of crates/api and crates/cluster do.
  unfoldable pub search : Text → Text → ℕ → ℕ → Action (Catalog Index) (SearchResults tantivy.Score)
  unfolding get_entry read_index execute
  search name query limit offset = do
    target ← get_entry name
    read_index target.uuid (λ index. execute tantivy index query limit offset)

  unfoldable pub checkpoint : Action (Catalog Index) (Unit {0})
  unfolding commit_all trim
  checkpoint = do
    high_water ← gets (λ c. c.seq)
    commit_all tantivy ext (record { term = 0; node = 0; index = high_water })
    wal ← gets (λ c. c.wal)
    wal' ← lift (trim high_water wal)
    modify (λ c. record c { wal = wal' })
