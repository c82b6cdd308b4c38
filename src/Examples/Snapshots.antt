-- ===== src/Examples/Snapshots.antt =====
-- A snapshot of a catalog with one collection, of one document.
use lumen.Base.{
  ℕ, ◌≡◌, ◌≢◌, refl, sym, ap, ◌∙◌, Text, bytes, true, none, some, [], ◌∷◌, ok, ok_inj, All,
  BTreeMap, get, text_cmp, text_ord, nat_ord,
}
use lumen.Core.Error.{done}
use lumen.Core.Log.Durability.{empty_log}
use lumen.Core.Wal.{DecodesSnapshot, open_wal, default_segment_max}
use lumen.Core.Catalog.State.{Catalog, Entry}
use lumen.Core.Catalog.Store.{persist}
use lumen.Core.Catalog.Open.{open_catalog}
use lumen.Core.Catalog.Snapshots.{Files, Tar, archive_each, archive_of, UnpacksBack}
use lumen.Core.Catalog.Snapshots.Install.{set_aside}
use lumen.Core.Catalog.Snapshots.Installed.{IsRestored}
use lumen.Core.Catalog.Snapshots.Crashed.{open_catalog-set_aside}
use lumen.Proto.Openraft.{SnapshotMeta}
use lumen.Cluster.StateMachine.{applied_state}
use lumen.Cluster.StateMachine.Snapshots.{
  ArchivingMachine, build_snapshot, install_snapshot, get_current_snapshot,
}
use lumen.Cluster.StateMachine.Snapshots.Transferred.{install_snapshot-transferred}
use lumen.Examples.Instances.{numbers, one_voter}
use lumen.Examples.Machines.{codec}
use lumen.Examples.RaftLogs.{at}
use lumen.Examples.Archives.{Single, singles, single_dirs, no_fields}
use lumen.Core.Collection.{committed_mark}
use lumen.Core.Catalog.Store.{mark_of, snapshot_proto}
use lumen.Core.Catalog.Store.{min_marks}
use lumen.Base.{try_map}

abbrev notes : Entry
notes = record { uuid = 40; created_seq = 1; mapping = no_fields }

abbrev filled : Single
filled = record { payload = some (1 ∷ 1 ∷ 9 ∷ []); searchable = true; pending = true }

abbrev sender : Catalog Single
sender = record {
  seq = 3;
  wal = empty_log default_segment_max;
  collections = (bytes "notes", notes) ∷ [];
  dirs = (40, filled) ∷ [];
  snapshot = none;
  quarantine = [];
}

abbrev receiver : Catalog Single
receiver = record {
  seq = 0;
  wal = empty_log default_segment_max;
  collections = [];
  dirs = [];
  snapshot = none;
  quarantine = [];
}

abbrev node_of : Catalog Single → ArchivingMachine ℕ Single
node_of c = record {
  machine = record {
    catalog = c;
    membership_file = none;
    last_applied = some (at 9).log_id;
    last_membership = record { log_id = none; membership = 1 };
    current_snapshot = none;
  };
  current = none;
}

-- The directories that are staged for the sender's snapshot.
abbrev staged : BTreeMap ℕ Files
staged = (40, (bytes "meta.json", 1 ∷ 0 ∷ 1 ∷ 1 ∷ 9 ∷ []) ∷ []) ∷ []

sender_staged : archive_each singles single_dirs sender.collections [] sender.dirs ≡ ok staged
unfolding archive_each get text_cmp
sender_staged = refl

abbrev one_archive : Tar
unfolding archive_of
one_archive = record {
  pack = λ archive. 7 ∷ [];
  unpack = λ file. ok (archive_of singles single_dirs numbers sender staged);
}

restores :
    (staging : BTreeMap ℕ Files)
    → archive_each singles single_dirs sender.collections [] sender.dirs ≡ ok staging
    → UnpacksBack one_archive (archive_of singles single_dirs numbers sender staging)
unfolding UnpacksBack one_archive
restores staging h =
    ap (λ s. ok (archive_of singles single_dirs numbers sender s))
      (ok_inj staged staging (sym sender_staged ∙ h))

abbrev built_meta : SnapshotMeta ℕ
built_meta = record {
  last_log_id = some (at 9).log_id;
  last_membership = record { log_id = none; membership = 1 };
  snapshot_id = bytes "1-1-9";
}

abbrev sent : ArchivingMachine ℕ Single
sent = (build_snapshot one_voter codec singles single_dirs one_archive numbers (node_of sender)).1

sender_built :
    build_snapshot one_voter codec singles single_dirs one_archive numbers (node_of sender)
    ≡ (ok (built_meta, 7 ∷ []), sent)
unfolding build_snapshot min_marks mark_of committed_mark
sender_built = refl

reopens : (i : Single) → (j : Single) × (singles.reopen i ≡ ok j)
reopens i = (record i { pending = i.searchable }, refl)

sender_decodes : DecodesSnapshot numbers (snapshot_proto numbers 3 sender)
unfolding DecodesSnapshot snapshot_proto
sender_decodes = refl

install_snapshot-transferred_example :
    (t' : ArchivingMachine ℕ Single) × (install_snapshot one_voter codec singles single_dirs
        one_archive numbers built_meta
        (7 ∷ [])
        (node_of receiver)
      ≡ (ok tt, t'))
    × (t'.machine.catalog.collections ≡ (bytes "notes", notes) ∷ [])
    × All
        (λ (e : Text × Entry).
          IsRestored singles single_dirs numbers sender.dirs t'.machine.catalog.dirs e.1.uuid)
        sender.collections
    × (applied_state one_voter codec singles numbers t'.machine
        ≡ ok (some (at 9).log_id, record { log_id = none; membership = 1 }))
    × (get_current_snapshot one_voter codec singles single_dirs one_archive numbers t'
        ≡ some (built_meta, 7 ∷ []))
install_snapshot-transferred_example =
    install_snapshot-transferred one_voter codec singles single_dirs one_archive numbers
      (node_of sender) sent (node_of receiver) built_meta (7 ∷ []) (tt, tt) ((tt, tt), tt) (tt, tt)
      reopens restores sender_decodes sender_built

nothing_logged : open_wal numbers sender.wal.disk ≡ ok (empty_log default_segment_max, [])
unfolding open_wal try_map
nothing_logged = refl

notes_found : get (bytes "notes") sender.collections ≡ some notes
unfolding get text_cmp
notes_found = refl

open_catalog-set_aside_example :
    open_catalog singles numbers
      (set_aside singles single_dirs numbers 40 (persist numbers 3 sender))
    ≢ (done tt, receiver)
open_catalog-set_aside_example =
    open_catalog-set_aside singles numbers single_dirs 3 sender receiver
      (empty_log default_segment_max) [] (bytes "notes") notes notes_found nothing_logged tt
      sender_decodes
