-- ===== src/Core/Catalog/Apply.antt =====
-- The commands of the log on a catalog (crates/core/src/catalog.rs, `apply_command` and what it
-- calls) and the catalog's own calls that read or commit one collection.
use lumen.Base.{
  Text, text_ord, text_cmp, nat_ord, Bool, false, Option, none, some, [], remove, err, ok_or, leb,
  ltb, if◌then◌else◌,
}
use lumen.Core.Error.{Fallible, recovery, missing_mapping, invalid_uuid, invalid_json}
use lumen.Core.Json.{JsonApi}
use lumen.Core.Mapping.{Mapping, mapping_try_from}
use lumen.Core.Mapping.Equality.{mapping_eq}
use lumen.Core.Tantivy.{TantivyApi, LogMark}
use lumen.Core.Collection.{apply_upsert, apply_delete}
use lumen.Core.Catalog.State.{Catalog, Entry, Action, pure, lift, gets, modify, ◌>>=◌, ◌>>◌}
use lumen.Core.Wal.{Externals}
use lumen.Core.Catalog.Store.{
  lookup, get_entry, with_index, drop_dir, persist, install_collection, mark_of, commit_all,
  commit_entry,
}
use lumen.Proto.Command as Proto

pub record ApplyOutcome : Type 0 where
  pub id : Text
  pub created : Bool

-- `ApplyOutcome::default()`
abbrev pub default_outcome : ApplyOutcome
default_outcome = record { id = []; created = false }

-- `Mapping::try_from(create.mapping.clone().ok_or_else(…)?)?`
unfoldable pub requested_mapping : Proto.CreateCollection → Fallible Mapping
unfolding mapping_try_from
requested_mapping create = elim create.mapping [
  | none ↦ err (recovery missing_mapping)
  | some message ↦ mapping_try_from message
]

module _ {json : JsonApi} (tantivy : TantivyApi json) (ext : Externals) where
  open tantivy use {Index}

  -- `apply_create` on a name that is not there.
  unfoldable pub create_new :
      LogMark → Proto.CreateCollection → Mapping → Action (Catalog Index) (Unit {0})
  unfolding install_collection persist
  create_new mark create mapping = do
    uuid ← lift (ok_or (ext.parse_uuid create.uuid) (recovery (invalid_uuid create.uuid)))
    install_collection tantivy create.collection uuid mapping mark.index
    modify (persist ext mark.index)

  -- A name that is there keeps its mapping, and a conflict is only logged.
  unfoldable pub create_missing :
      LogMark → Proto.CreateCollection → Mapping → Option Entry → Action (Catalog Index) (Unit {0})
  unfolding mapping_eq create_new
  create_missing mark create mapping none = create_new mark create mapping
  create_missing mark create mapping (some entry) =
      if mapping_eq entry.mapping mapping then pure tt else pure tt

  unfoldable pub apply_create : LogMark → Proto.CreateCollection → Action (Catalog Index) (Unit {0})
  unfolding lookup requested_mapping create_missing
  apply_create mark create = do
    mapping ← lift (requested_mapping create)
    existing ← gets (lookup create.collection)
    create_missing mark create mapping existing

  unfoldable pub apply_drop : LogMark → Text → Action (Catalog Index) (Unit {0})
  unfolding lookup remove drop_dir persist text_cmp
  apply_drop mark name = do
    removed ← gets (lookup name)
    modify (λ c. record c { collections = remove name c.collections })
    elim removed [
      | none ↦ pure tt
      | some entry ↦ (do modify (drop_dir entry.uuid); modify (persist ext mark.index))
    ]

  -- `apply_index` on a document that is not committed.
  unfoldable pub index_new : Entry → Proto.IndexDocument → Action (Catalog Index) ApplyOutcome
  unfolding with_index apply_upsert
  index_new entry index = do
    parsed ← lift (ok_or (json.from_slice index.source) (recovery invalid_json))
    created ←
        with_index entry.uuid (apply_upsert tantivy entry.mapping index.id index.source parsed)
    pure (record { id = index.id; created = created })

  unfoldable pub apply_index : LogMark → Proto.IndexDocument → Action (Catalog Index) ApplyOutcome
  unfolding lookup mark_of index_new
  apply_index mark index = do
    target ← gets (lookup index.collection)
    elim target [
      | none ↦ pure default_outcome
      | some entry ↦ (do
        committed ← mark_of tantivy entry
        if leb mark.index committed.index
            then pure (record { id = index.id; created = false })
            else index_new entry index)
    ]

  -- `apply_delete_doc` on a delete that is not committed.
  unfoldable pub delete_new : Entry → Proto.DeleteDocument → Action (Catalog Index) ApplyOutcome
  unfolding with_index apply_delete
  delete_new entry delete = do
    existed ← with_index entry.uuid (apply_delete tantivy delete.id)
    pure (record { id = delete.id; created = false })

  unfoldable pub apply_delete_doc :
      LogMark → Proto.DeleteDocument → Action (Catalog Index) ApplyOutcome
  unfolding lookup mark_of delete_new
  apply_delete_doc mark delete = do
    target ← gets (lookup delete.collection)
    elim target [
      | none ↦ pure default_outcome
      | some entry ↦ (do
        committed ← mark_of tantivy entry
        if leb mark.index committed.index then pure default_outcome else delete_new entry delete)
    ]

  unfoldable pub apply_op : LogMark → Proto.Op → Action (Catalog Index) ApplyOutcome
  unfolding apply_create apply_drop apply_index apply_delete_doc
  apply_op mark (Proto.index_document index) = apply_index mark index
  apply_op mark (Proto.delete_document delete) = apply_delete_doc mark delete
  apply_op mark (Proto.create_collection create) = do apply_create mark create; pure default_outcome
  apply_op mark (Proto.drop_collection drop) = do
    apply_drop mark drop.collection
    pure default_outcome

  unfoldable pub apply_command : LogMark → Proto.Command → Action (Catalog Index) ApplyOutcome
  unfolding apply_op
  apply_command mark command = elim command.op [
    | none ↦ pure default_outcome
    | some op ↦ apply_op mark op
  ]

  unfoldable pub checkpoint_applied : LogMark → Action (Catalog Index) (Unit {0})
  unfolding commit_all
  checkpoint_applied mark = commit_all tantivy ext mark

  unfoldable pub commit_collection : Text → LogMark → Action (Catalog Index) (Unit {0})
  unfolding get_entry mark_of commit_entry
  commit_collection name mark = do
    target ← get_entry name
    committed ← mark_of tantivy target
    if ltb committed.index mark.index then commit_entry tantivy mark target else pure tt
