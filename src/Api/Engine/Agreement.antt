-- ===== src/Api/Engine/Agreement.antt =====
-- The engine of a single node and that of a cluster's leader (crates/api/src/engine.rs).
use lumen.Base.{
  ℕ, ◌<◌, Text, text_ord, true, Bool, Option, some, List, get, ok, err, Result, ◌≡◌, refl, ap, ap₂,
  sym, ok_inj, err_ok,
}
use lumen.Core.Error.{Outcome, done, failed, panicked}
use lumen.Core.Json.{JsonApi}
use lumen.Core.Tantivy.{TantivyApi, LogMark}
use lumen.Core.Wal.{Externals}
use lumen.Core.Catalog.State.{Catalog, Entry}
use lumen.Core.Catalog.Store.{mark_of, get_entry, lookup}
use lumen.Core.Catalog.Apply.{ApplyOutcome, apply_command}
use lumen.Core.Catalog.Writes.{command, build_index_command, upsert_document}
use lumen.Core.Catalog.Upserts.{upsert_done, apply_command-upsert, index_op}
use lumen.Proto.Command as Proto
use lumen.Cluster.Client.{Raft, is_leader, client_write, ensure_leader}
use lumen.Cluster.Client as Client
use lumen.Api.Errors.{ApiError, core, internal}
use lumen.Api.Engine.{WriteOutcome, core_result}
use lumen.Api.Engine.Standalone as Standalone
use lumen.Api.Engine.Clustered as Clustered

module _ {json : JsonApi} (tantivy : TantivyApi json) (ext : Externals) where
  open tantivy use {Index}

  -- openraft answers a write with what the state machine gives for it under the log id of the mark.
  abbrev pub Applies : Raft Index → LogMark → Catalog Index → Type 0
  Applies raft mark c =
      (cmd : Proto.Command) (o : ApplyOutcome) (d : Catalog Index)
      → apply_command tantivy ext mark cmd c ≡ (done o, d)
      → raft.client_write cmd c ≡ (ok (record { id = o.id; created = o.created }), d)

  -- A write that the catalog accepts as its own is one that it builds the same command for.
  build_index_command-upsert :
      (uuid : ℕ) (collection : Text) (given : Option Text) (source : List ℕ) (id : Text)
      (created : Bool) (c c' : Catalog Index)
      → upsert_document tantivy ext uuid collection given source c ≡ (done (id, created), c')
      → build_index_command tantivy ext uuid collection given source c
        ≡ (done (command (index_op collection id source)), c)
  unfolding build_index_command get_entry lookup
  build_index_command-upsert uuid collection given source id created c c' h =
      let u = upsert_done tantivy ext uuid collection given source id created c c' h in
      rw (u.found, build_index_command, get_entry)
        (rw u.is_json
          (rw u.valid (ap (λ t. (done (command (index_op collection t source)), c)) (sym u.id_is))))

  -- A write that the engine answers is one that the catalog accepted.
  pub index_ok :
      (uuid : ℕ) (name : Text) (given : Option Text) (source : List ℕ) (w : WriteOutcome)
      (c c' : Catalog Index)
      → Standalone.index tantivy ext uuid name given source c ≡ (ok w, c')
      → upsert_document tantivy ext uuid name given source c ≡ (done (w.id, w.created), c')
  unfolding Standalone.index Standalone.run core_result
  index_ok uuid name given source w c c' h =
      answered (upsert_document tantivy ext uuid name given source c) refl
    where
      answered :
          (r : Outcome (Text × Bool) × Catalog Index)
          → upsert_document tantivy ext uuid name given source c ≡ r
          → r ≡ (done (w.id, w.created), c')
      answered (done (id, created), d) q =
          let e : ◌≡◌ {A = Result ApiError WriteOutcome × Catalog Index}
              (ok (record { id = id; created = created }), d) (ok w, c') =
            rw (q, Standalone.index) at h in
          let e' = ok_inj (record { id = id; created = created }) w (ap (λ r. r.0) e) in
          ap₂ (λ x y. (done (x.id, x.created), y)) e' (ap (λ r. r.1) e)
      answered (failed x, d) q =
          let e : ◌≡◌ {A = Result ApiError WriteOutcome × Catalog Index} (err (core x), d)
              (ok w, c') =
            rw (q, Standalone.index) at h in
          absurd (err_ok (core x) w (ap (λ r. r.0) e))
      answered (panicked, d) q =
          let e : ◌≡◌ {A = Result ApiError WriteOutcome × Catalog Index} (err internal, d)
              (ok w, c') =
            rw (q, Standalone.index) at h in
          absurd (err_ok internal w (ap (λ r. r.0) e))

  -- A write that a single node accepts is accepted by the leader of a cluster on the same catalog,
  -- with the same answer and the same catalog but for the write-ahead log and its number, if the
  -- collection's committed mark is below the mark at which openraft applies the command.
  pub index-index :
      (raft : Raft Index) (self_id uuid : ℕ) (name : Text) (given : Option Text) (source : List ℕ)
      (w : WriteOutcome) (mark : LogMark) (c c' : Catalog Index)
      → is_leader self_id (raft.metrics c).current_leader ≡ true
      → Applies raft mark c
      → ((entry : Entry)
          → get name c.collections ≡ some entry
          → (m : LogMark) × (mark_of tantivy entry c ≡ (done m, c)) × (m.index < mark.index))
      → Standalone.index tantivy ext uuid name given source c ≡ (ok w, c')
      → Clustered.index tantivy ext raft self_id uuid name given source c
        ≡ (ok w, record c' { seq = c.seq; wal = c.wal })
  unfolding Clustered.index Clustered.asked Client.index ensure_leader client_write
  index-index raft self_id uuid name given source w mark c c' leads applies behind h =
      let up = index_ok uuid name given source w c c' h in
      rw
        (
          leads,
          Clustered.index,
          build_index_command-upsert uuid name given source w.id w.created c c' up,
          applies (command (index_op name w.id source)) (record { id = w.id; created = w.created })
              (record c' { seq = c.seq; wal = c.wal })
              (apply_command-upsert tantivy ext uuid name given source w.id w.created mark c.seq
                c.wal c c' up behind),
        )
        refl
