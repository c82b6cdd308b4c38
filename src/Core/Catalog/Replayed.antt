-- ===== src/Core/Catalog/Replayed.antt =====
-- Replaying commands that a catalog already has (crates/core/src/catalog.rs, `apply_command`).
use lumen.Base.{
  ℕ, ◌≤◌, Text, text_ord, nat_ord, some, get, get-insert_self, Result, ok, err, ◌≡◌, refl, sym, ap,
  ◌∙◌, subst, le→leb, Option-cases, inl, inr, arith,
}
use lumen.Core.Error.{Error, done}
use lumen.Core.Json.{JsonApi}
use lumen.Core.Mapping.{Mapping}
use lumen.Core.Tantivy.{TantivyApi, LogMark}
use lumen.Core.Wal.{Externals}
use lumen.Core.Catalog.State.{Catalog, Entry, modify, bind_done}
use lumen.Core.Catalog.Store.{lookup, persist, install_collection, open_or_create}
use lumen.Core.Catalog.Apply.{
  requested_mapping, create_missing, apply_index, apply_delete_doc, apply_create, create_new,
  apply_command, apply_op, checkpoint_applied,
}
use lumen.Core.Catalog.Committed.{
  AreCommitted, mark_of-IsCommitted, get-AreCommitted, checkpoint-AreCommitted,
}
use lumen.Proto.Command as Proto

-- A command that writes or deletes a document.
unfoldable pub IsDocument : Proto.Op → Type 0
IsDocument (Proto.index_document index) = Unit
IsDocument (Proto.delete_document delete) = Unit
IsDocument (Proto.create_collection create) = ⊥
IsDocument (Proto.drop_collection drop) = ⊥

module _ {json : JsonApi} (tantivy : TantivyApi json) where
  open tantivy use {Index}

  install_found :
      (name : Text) (uuid : ℕ) (mapping : Mapping) (seq : ℕ) (c c' : Catalog Index)
      → install_collection tantivy name uuid mapping seq c ≡ (done tt, c')
      → get name c'.collections
        ≡ some (record { uuid = uuid; created_seq = seq; mapping = mapping })
  unfolding install_collection
  install_found name uuid mapping seq c c' h =
      opened (open_or_create tantivy mapping (get uuid c.dirs)) refl
    where
      opened :
          (r : Result Error Index)
          → open_or_create tantivy mapping (get uuid c.dirs) ≡ r
          → get name c'.collections
            ≡ some (record { uuid = uuid; created_seq = seq; mapping = mapping })
      opened (err e) q = absurd (ground (arith, q))
      opened (ok index) q =
          ap (λ r. get name r.1.collections) (sym h)
          ∙ rw (q, install_collection) (get-insert_self name _ c.collections)

  module _ (ext : Externals) where
    replay_index :
        (mark mark' : LogMark) (c : Catalog Index) (index : Proto.IndexDocument)
        → AreCommitted tantivy mark c.collections c.dirs
        → mark'.index ≤ mark.index
        → (apply_index tantivy ext mark' index c).1 ≡ c
    unfolding apply_index lookup
    replay_index mark mark' c index k below =
        elim (Option-cases (get index.collection c.collections)) [
          | inl e ↦ rw (e, apply_index) refl
          | inr (entry, e) ↦
              rw
                (
                  e,
                  apply_index,
                  mark_of-IsCommitted tantivy mark entry c (
                      get-AreCommitted tantivy mark c.collections c.dirs index.collection entry k
                        e),
                )
                (rw (le→leb mark'.index mark.index below) refl)
        ]

    replay_delete :
        (mark mark' : LogMark) (c : Catalog Index) (delete : Proto.DeleteDocument)
        → AreCommitted tantivy mark c.collections c.dirs
        → mark'.index ≤ mark.index
        → (apply_delete_doc tantivy ext mark' delete c).1 ≡ c
    unfolding apply_delete_doc lookup
    replay_delete mark mark' c delete k below =
        elim (Option-cases (get delete.collection c.collections)) [
          | inl e ↦ rw (e, apply_delete_doc) refl
          | inr (entry, e) ↦
              rw
                (
                  e,
                  apply_delete_doc,
                  mark_of-IsCommitted tantivy mark entry c (
                      get-AreCommitted tantivy mark c.collections c.dirs delete.collection entry k
                        e),
                )
                (rw (le→leb mark'.index mark.index below) refl)
        ]

    -- After a checkpoint at a mark, a document command at the mark or below changes nothing.
    pub replay-checkpoint :
        (mark mark' : LogMark) (c c' : Catalog Index) (op : Proto.Op)
        → checkpoint_applied tantivy ext mark c ≡ (done tt, c')
        → IsDocument op
        → mark'.index ≤ mark.index
        → (apply_command tantivy ext mark' (record { op = some op }) c').1 ≡ c'
    unfolding apply_command apply_op IsDocument
    replay-checkpoint mark mark' c c' (Proto.index_document index) h doc below =
        replay_index mark mark' c' index (checkpoint-AreCommitted tantivy ext mark c c' h).0 below
    replay-checkpoint mark mark' c c' (Proto.delete_document delete) h doc below =
        replay_delete mark mark' c' delete (checkpoint-AreCommitted tantivy ext mark c c' h).0 below
    replay-checkpoint mark mark' c c' (Proto.create_collection create) h doc below = absurd doc
    replay-checkpoint mark mark' c c' (Proto.drop_collection drop) h doc below = absurd doc

    created_found :
        (mark : LogMark) (create : Proto.CreateCollection) (mapping : Mapping)
        (c c' : Catalog Index)
        → create_new tantivy ext mark create mapping c ≡ (done tt, c')
        → (entry : Entry) × (lookup create.collection c' ≡ some entry)
    unfolding create_new
    created_found mark create mapping c c' h = elim (Option-cases (ext.parse_uuid create.uuid)) [
      | inl e ↦ absurd (ground (arith, e))
      | inr (uuid, e) ↦
          let (_, d, installed, saved) =
            bind_done (install_collection tantivy create.collection uuid mapping mark.index)
              (λ _. modify (persist ext mark.index)) c tt c' (rw e at h) in
          let entry : Entry = record { uuid = uuid; created_seq = mark.index; mapping = mapping } in
          (
            entry,
            subst (λ x. lookup create.collection x ≡ some entry) (ap (λ r. r.1) saved)
                (unfold persist lookup in
                  install_found create.collection uuid mapping mark.index c d installed),
          )
    ]

    -- A create command that was applied changes nothing when it is applied again.
    pub apply_create-twice :
        (mark mark' : LogMark) (create : Proto.CreateCollection) (c c' : Catalog Index)
        → apply_create tantivy ext mark create c ≡ (done tt, c')
        → apply_create tantivy ext mark' create c' ≡ (done tt, c')
    unfolding apply_create create_missing lookup
    apply_create-twice mark mark' create c c' h = requested (requested_mapping create) refl
      where
        known :
            (mapping : Mapping) (entry : Entry)
            → requested_mapping create ≡ ok mapping
            → lookup create.collection c' ≡ some entry
            → apply_create tantivy ext mark' create c' ≡ (done tt, c')
        known mapping entry e l = rw (e, apply_create) (rw l (ground arith))

        requested :
            (r : Result Error Mapping)
            → requested_mapping create ≡ r
            → apply_create tantivy ext mark' create c' ≡ (done tt, c')
        requested (err x) e = absurd (ground (arith, e))
        requested (ok mapping) e = elim (Option-cases (lookup create.collection c)) [
          | inl l ↦
              let (entry, found) = created_found mark create mapping c c' (ground (arith, e, l)) in
              known mapping entry e found
          | inr (entry, l) ↦ known mapping entry e (ground (arith, e, l))
        ]
