-- ===== src/Cluster/StateMachine/Snapshots/Transferred.antt =====
-- A snapshot that one node builds and another one installs
-- (crates/cluster/src/state_machine.rs).
use lumen.Base.{
  ℕ, Text, BTreeMap, [], Option, none, some, All, IsSorted, text_ord, Result, Result-cases, ok, err,
  err_ok, ok_inj, inl, inr, ◌≡◌, refl, sym, ap, ◌∙◌, subst,
}
use lumen.Core.Error.{Error, Outcome, done, failed, panicked}
use lumen.Core.Json.{JsonApi}
use lumen.Core.Log.Frame.{Bytes}
use lumen.Core.Tantivy.{TantivyApi, LogMark}
use lumen.Core.Wal.{Externals, DecodesSnapshot}
use lumen.Core.Catalog.State.{Entry}
use lumen.Core.Catalog.Store.{min_committed_mark, snapshot_proto}
use lumen.Core.Catalog.Reopened.{IsSound}
use lumen.Core.Catalog.Snapshots.{
  Directories, Tar, Archiving, Files, archive_each, archive_of, UnpacksBack,
}
use lumen.Core.Catalog.Snapshots as Archives
use lumen.Core.Catalog.Snapshots.Installed.{AreDistinct, IsRestored}
use lumen.Core.Catalog.Snapshots.Restored.{install_snapshot-build_snapshot}
use lumen.Core.Catalog.Snapshots.Marks.{min_committed_mark-IsRestored}
use lumen.Proto.Openraft.{MembershipApi, LogId, SnapshotMeta}
use lumen.Cluster.Storage.{Stored, engine, task_panicked, read_state_machine, write_state_machine}
use lumen.Cluster.StateMachine.{
  MachineCodec, StateMachine, applied_log_id, applied_state, persist_membership,
}
use lumen.Cluster.StateMachine.Snapshots.{
  ArchivingMachine, build_snapshot, install_snapshot, get_current_snapshot, archiving, with_catalog,
  snapshot_id, describe_snapshot, built, installed,
}

module _ (api : MembershipApi) (codec : MachineCodec api) {json : JsonApi}
    (tantivy : TantivyApi json) (directories : Directories tantivy) (tar : Tar)
    (ext : Externals) where
  open api use {Membership}
  open tantivy use {Index}

  -- What a machine that built a snapshot had and has.
  record Built (s s' : ArchivingMachine Membership Index) (meta : SnapshotMeta Membership)
      (file : Bytes) : Type 0 where
    archive : Archiving Index
    archived :
        Archives.build_snapshot tantivy directories tar ext
          (archiving api codec tantivy directories tar ext s)
        ≡ (ok file, archive)
    applied :
        applied_log_id api codec tantivy ext (record s.machine { catalog = archive.catalog })
        ≡ ok meta.last_log_id
    members : meta.last_membership ≡ s.machine.last_membership

  build_snapshot_ok :
      (s s' : ArchivingMachine Membership Index) (meta : SnapshotMeta Membership) (file : Bytes)
      → build_snapshot api codec tantivy directories tar ext s ≡ (ok (meta, file), s')
      → Built s s' meta file
  unfolding build_snapshot built describe_snapshot
  build_snapshot_ok s s' meta file h =
      archived
        (Archives.build_snapshot tantivy directories tar ext
          (archiving api codec tantivy directories tar ext s))
        refl
    where
      archived :
          (r : Result Error Bytes × Archiving Index)
          → Archives.build_snapshot tantivy directories tar ext
              (archiving api codec tantivy directories tar ext s)
            ≡ r
          → Built s s' meta file
      archived (err e, a) q =
          let bad : ◌≡◌
              {A = Stored (SnapshotMeta Membership × Bytes) × ArchivingMachine Membership Index}
              (
                err (write_state_machine (engine e)),
                with_catalog api codec tantivy directories tar ext a s,
              )
              (ok (meta, file), s') =
            subst (λ r. built api codec tantivy directories tar ext s r ≡ (ok (meta, file), s')) q
              h in
          absurd (err_ok (write_state_machine (engine e)) (meta, file) (ap (λ r. r.0) bad))
      archived (ok b, a) q =
          elim (Result-cases
            (applied_log_id api codec tantivy ext (record s.machine { catalog = a.catalog }))) [
              | inl (e, f) ↦
                  let bad : ◌≡◌
                      {A = Stored (SnapshotMeta Membership × Bytes)
                        × ArchivingMachine Membership Index}
                      (err e, with_catalog api codec tantivy directories tar ext a s)
                      (ok (meta, file), s') =
                    rw (f, describe_snapshot) at
                      (subst
                        (λ r.
                          built api codec tantivy directories tar ext s r ≡ (ok (meta, file), s'))
                        q h) in
                  absurd (err_ok e (meta, file) (ap (λ r. r.0) bad))
              | inr (last, f) ↦
                  let described : SnapshotMeta Membership = record {
                    last_log_id = last;
                    last_membership = s.machine.last_membership;
                    snapshot_id = snapshot_id last;
                  } in
                  let same : ◌≡◌ {A = Stored (SnapshotMeta Membership × Bytes)} (ok (described, b))
                      (ok (meta, file)) =
                    ap (λ r. r.0)
                      (rw (f, describe_snapshot) at
                        (subst
                          (λ r.
                            built api codec tantivy directories tar ext s r ≡ (ok (meta, file), s'))
                          q h)) in
                  let pair = ok_inj (described, b) (meta, file) same in
                  record {
                    archive = a;
                    archived = q ∙ ap (λ x. (ok x, a)) (ap (λ x. x.1) pair);
                    applied = f ∙ ap (λ x. ok x.0.last_log_id) pair;
                    members = ap (λ x. x.0.last_membership) (sym pair);
                  }
            ]

  -- The applied log id is the one of the catalog's marks, or the last applied one.
  applied_log_id-IsRestored :
      (s t : StateMachine Membership Index) (last : Option LogId)
      → (min_committed_mark tantivy s.catalog).0 ≡ (min_committed_mark tantivy t.catalog).0
      → applied_log_id api codec tantivy ext s ≡ ok last
      → t.last_applied ≡ last
      → applied_log_id api codec tantivy ext t ≡ ok last
  unfolding applied_log_id
  applied_log_id-IsRestored s t last same h e = go (min_committed_mark tantivy s.catalog).0 refl
    where
      go :
          (o : Outcome (Option LogMark))
          → (min_committed_mark tantivy s.catalog).0 ≡ o
          → applied_log_id api codec tantivy ext t ≡ ok last
      go (done none) q = rw (sym same ∙ q, applied_log_id) (ap ok e)
      go (done (some mark)) q = rw (sym same ∙ q, applied_log_id) (rw (q, applied_log_id) at h)
      go (failed x) q =
          absurd (err_ok (read_state_machine (engine x)) last (rw (q, applied_log_id) at h))
      go panicked q =
          absurd (err_ok (read_state_machine task_panicked) last (rw (q, applied_log_id) at h))

  -- A snapshot that one node built is installed by any other one, whatever that one had. It then
  -- has the collections of the first one, each with its last commit, reports the log id and the
  -- membership of the snapshot as applied, and offers the snapshot as its current one. The first
  -- catalog's mappings are valid, no two of its collections have the same uuid, every directory can
  -- be opened, the archive's file unpacks to the archive, and prost decodes the catalog's snapshot
  -- in it.
  pub install_snapshot-transferred :
      (s s' t : ArchivingMachine Membership Index) (meta : SnapshotMeta Membership) (file : Bytes)
      → IsSorted s.machine.catalog.collections
      → All IsSound s.machine.catalog.collections
      → AreDistinct s.machine.catalog.collections
      → ((i : Index) → (j : Index) × (tantivy.reopen i ≡ ok j))
      → ((staging : BTreeMap ℕ Files)
          → archive_each tantivy directories s.machine.catalog.collections [] s.machine.catalog.dirs
            ≡ ok staging
          → UnpacksBack tar (archive_of tantivy directories ext s.machine.catalog staging))
      → DecodesSnapshot ext (snapshot_proto ext s.machine.catalog.seq s.machine.catalog)
      → build_snapshot api codec tantivy directories tar ext s ≡ (ok (meta, file), s')
      → (t' : ArchivingMachine Membership Index) × (install_snapshot api codec tantivy directories
            tar ext meta file t
          ≡ (ok tt, t'))
        × (t'.machine.catalog.collections ≡ s.machine.catalog.collections)
        × All
            (λ (e : Text × Entry).
              IsRestored tantivy directories ext s.machine.catalog.dirs t'.machine.catalog.dirs
                e.1.uuid)
            s.machine.catalog.collections
        × (applied_state api codec tantivy ext t'.machine
            ≡ ok (meta.last_log_id, s.machine.last_membership))
        × (get_current_snapshot api codec tantivy directories tar ext t' ≡ some (meta, file))
  unfolding install_snapshot installed get_current_snapshot applied_state persist_membership
  install_snapshot-transferred s s' t meta file sorted sound distinct reopens restores decodes h =
      let b = build_snapshot_ok s s' meta file h in
      let (b', ran, same, restored, current, kept) =
        install_snapshot-build_snapshot tantivy directories ext reopens tar
          (archiving api codec tantivy directories tar ext s) b.archive
          (archiving api codec tantivy directories tar ext t) file sorted sound distinct restores
          decodes b.archived in
      let t' : ArchivingMachine Membership Index = record {
        machine =
            record (persist_membership api codec meta.last_membership
              (record t.machine { catalog = b'.catalog })) {
                last_applied = meta.last_log_id;
                last_membership = meta.last_membership;
                current_snapshot = some meta;
              };
        current = b'.current;
      } in
      let before : applied_log_id api codec tantivy ext s.machine ≡ ok meta.last_log_id =
        ap
          (λ (x : Archiving Index).
            applied_log_id api codec tantivy ext (record s.machine { catalog = x.catalog }))
          (sym kept)
        ∙ b.applied in
      let now : applied_log_id api codec tantivy ext t'.machine ≡ ok meta.last_log_id =
        applied_log_id-IsRestored s.machine t'.machine meta.last_log_id
          (min_committed_mark-IsRestored tantivy directories ext s.machine.catalog b'.catalog same
            restored)
          before refl in
      (
        t',
        ap (installed api codec tantivy directories tar ext meta t) ran,
        same,
        restored,
        rw (now, applied_state) (ap (λ m. ok (meta.last_log_id, m)) b.members),
        rw (current, get_current_snapshot) refl,
      )
