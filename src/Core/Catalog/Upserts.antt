-- ===== src/Core/Catalog/Upserts.antt =====
-- What an upsert leaves behind, and its replay from the write-ahead log (crates/core/src/catalog.rs).
use lumen.Base.{
  ℕ, ◌+◌, ◌%◌, u64_mod, ◌<◌, Text, text_ord, nat_ord, Bool, Option, some, List, ok, ok_or, get,
  insert, Result-cases, inl, inr, ◌≡◌, ap, sym, ◌∙◌, ok_or-some, lt→not-leb, subst,
}
use lumen.Core.Error.{done, failed_done, done_inj, validation, invalid_json}
use lumen.Core.Json.{JsonApi}
use lumen.Core.Mapping.{validate_document}
use lumen.Core.Tantivy.{TantivyApi, LogMark, or_default}
use lumen.Core.Collection.{apply_upsert, committed_mark}
use lumen.Core.Catalog.State.{Catalog, Entry}
use lumen.Core.Catalog.Store.{lookup, mark_of}
use lumen.Core.Catalog.Apply.{apply_command, apply_op, apply_index, index_new}
use lumen.Core.Catalog.Writes.{command, wal_entry, or_new_id, upsert_document}
use lumen.Core.Catalog.Steps.{lift_then, entry_then, log_then, index_then}
use lumen.Core.Wal.{Externals, append}
use lumen.Core.Log.{SegmentedLog}
use lumen.Proto.Command as Proto

abbrev pub index_op : Text → Text → List ℕ → Proto.Op
index_op collection id source =
    Proto.index_document (record { collection = collection; id = id; source = source })

module _ {json : JsonApi} (tantivy : TantivyApi json) where
  open tantivy use {Index}

  -- What an upsert that succeeds does: the next number is logged with the operation, and the
  -- collection's index takes the document.
  pub record Upserted (ext : Externals) (c c' : Catalog Index) (uuid : ℕ) (collection id : Text)
      (given : Option Text) (source : List ℕ) (created : Bool) : Type 0 where
    pub entry : Entry
    pub parsed : json.Value
    pub wal : SegmentedLog
    pub i : Index
    pub j : Index
    pub id_is : id ≡ or_new_id ext uuid given
    pub found : get collection c.collections ≡ some entry
    pub is_json : json.from_slice source ≡ some parsed
    pub valid : validate_document json entry.mapping parsed ≡ ok tt
    pub logged :
        append ext (wal_entry ((c.seq + 1) % u64_mod) (index_op collection id source)) c.wal
        ≡ ok wal
    pub index : get entry.uuid c.dirs ≡ some i
    pub upserted : apply_upsert tantivy entry.mapping id source parsed i ≡ (done created, j)
    pub after :
        c' ≡ record c { seq = (c.seq + 1) % u64_mod; wal = wal; dirs = insert entry.uuid j c.dirs }

  module _ (ext : Externals) where
    pub upsert_done :
        (uuid : ℕ) (collection : Text) (given : Option Text) (source : List ℕ) (id : Text)
        (created : Bool) (c c' : Catalog Index)
        → upsert_document tantivy ext uuid collection given source c ≡ (done (id, created), c')
        → Upserted ext c c' uuid collection id given source created
    unfolding upsert_document
    upsert_done uuid collection given source id created c c' h =
        entry_then collection _ (id, created) c c' h
          (λ entry found h0.
            lift_then (ok_or (json.from_slice source) (validation invalid_json)) _ (id, created) c
              c' h0
              (λ parsed is_json h1.
                lift_then (validate_document json entry.mapping parsed) _ (id, created) c c' h1
                  (λ u valid h2.
                    log_then ext (index_op collection (or_new_id ext uuid given) source) _
                      (id, created) c c' h2
                      (λ wal logged h3.
                        index_then entry.uuid
                          (apply_upsert tantivy entry.mapping (or_new_id ext uuid given) source
                            parsed)
                          _ (id, created) _ c' h3
                          (λ created' i j at upserted h4.
                            let answer =
                              done_inj (or_new_id ext uuid given, created') (id, created)
                                (ap (λ r. r.0) h4) in
                            record {
                              entry = entry;
                              parsed = parsed;
                              wal = wal;
                              i = i;
                              j = j;
                              id_is = sym (ap (λ r. r.0) answer);
                              found = found;
                              is_json = ok_or-some (json.from_slice source) _ parsed is_json;
                              valid = valid;
                              logged =
                                  ap
                                    (λ t.
                                      append ext
                                        (wal_entry ((c.seq + 1) % u64_mod)
                                          (index_op collection t source))
                                        c.wal)
                                    (sym (ap (λ r. r.0) answer))
                                  ∙ logged;
                              index = at;
                              upserted =
                                  ap (λ t. apply_upsert tantivy entry.mapping t source parsed i)
                                    (sym (ap (λ r. r.0) answer))
                                  ∙ upserted
                                  ∙ ap (λ b. (done b, j)) (ap (λ r. r.1) answer);
                              after = sym (ap (λ r. r.1) h4);
                            })))))

    -- Applying the command of an upsert at a mark above the collection's committed one, on the
    -- catalog before the upsert with any log, gives the answer and the effect of the upsert.
    pub apply_command-upsert :
        (uuid : ℕ) (collection : Text) (given : Option Text) (source : List ℕ) (id : Text)
        (created : Bool) (mark : LogMark) (seq : ℕ) (wal : SegmentedLog) (c c' : Catalog Index)
        → upsert_document tantivy ext uuid collection given source c ≡ (done (id, created), c')
        → ((entry : Entry)
            → get collection c.collections ≡ some entry
            → (m : LogMark) × (mark_of tantivy entry c ≡ (done m, c)) × (m.index < mark.index))
        → apply_command tantivy ext mark
            (command (index_op collection id source))
            (record c { seq = seq; wal = wal })
          ≡ (done (record { id = id; created = created }), record c' { seq = seq; wal = wal })
    unfolding apply_command apply_op apply_index index_new lookup command mark_of
    apply_command-upsert uuid collection given source id created mark seq wal c c' h behind =
        let u = upsert_done uuid collection given source id created c c' h in
        let (m, q, below) = behind u.entry u.found in
        elim (Result-cases (committed_mark tantivy u.i)) [
          | inl (e, r) ↦ absurd (failed_done e m (ap (λ x. x.0) (rw (u.index, r, mark_of) at q)))
          | inr (mo, r) ↦
              rw (u.found, apply_command, u.index, r)
                (rw
                  (lt→not-leb (or_default mo).index mark.index (
                    subst (λ x. x.index < mark.index)
                      (done_inj m (or_default mo)
                        (sym (ap (λ x. x.0) (rw (u.index, r, mark_of) at q))))
                      below))
                  (rw u.is_json (
                    rw u.index (
                      rw u.upserted (
                        ap
                          (λ (x : Catalog Index). (
                            done (record { id = id; created = created }),
                            record x { seq = seq; wal = wal },
                          ))
                          (sym u.after))))))
        ]

    -- An upsert appends to the write-ahead log one entry, with the new number and the command to
    -- index the source under the id. Replaying that command, on the catalog from before the upsert
    -- with the new log, gives the catalog and the answer of the upsert, if the collection has a
    -- committed mark below the number of the log entry.
    pub replay-upsert :
        (uuid : ℕ) (collection : Text) (given : Option Text) (source : List ℕ) (id : Text)
        (created : Bool) (c c' : Catalog Index)
        → upsert_document tantivy ext uuid collection given source c ≡ (done (id, created), c')
        → ((entry : Entry)
            → get collection c.collections ≡ some entry
            → (m : LogMark) × (mark_of tantivy entry c ≡ (done m, c)) × (m.index < c'.seq))
        → (append ext
              (record {
                seq = c'.seq;
                command = some (record { op = some (index_op collection id source) });
              })
              c.wal
            ≡ ok c'.wal)
          × (apply_command tantivy ext
                (record { term = 0; node = 0; index = c'.seq })
                (record { op = some (index_op collection id source) })
                (record c { seq = c'.seq; wal = c'.wal })
              ≡ (done (record { id = id; created = created }), c'))
    unfolding wal_entry command
    replay-upsert uuid collection given source id created c c' h behind = (
      (let u = upsert_done uuid collection given source id created c c' h in
          ap
            (λ (x : Catalog Index).
              append ext (wal_entry x.seq (index_op collection id source)) c.wal)
            u.after
          ∙ u.logged
          ∙ ap (λ (x : Catalog Index). ok x.wal) (sym u.after)),
      apply_command-upsert uuid collection given source id created
          (record { term = 0; node = 0; index = c'.seq }) c'.seq c'.wal c c' h behind,
    )
