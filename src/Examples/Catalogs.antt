-- ===== src/Examples/Catalogs.antt =====
-- A catalog with one collection.
use lumen.Base.{◌≡◌, refl, [], ◌∷◌, some, none, bytes, arith}
use lumen.Core.Mapping.{Mapping, collect_fields, new, validate_fields}
use lumen.Core.Mapping.Schema.{to_schema}
use lumen.Core.Error.{done}
use lumen.Core.Tantivy.{LogMark}
use lumen.Core.Collection.{commit}
use lumen.Core.Catalog.State.{Catalog, Entry}
use lumen.Core.Catalog.Store.{persist, commit_each, commit_entry}
use lumen.Core.Catalog.Apply.{apply_command, apply_create, checkpoint_applied}
use lumen.Core.Catalog.Replayed.{IsDocument, replay-checkpoint, apply_create-twice}
use lumen.Core.Log.Durability.{empty_log}
use lumen.Examples.Instances.{Memory, memory, numbers}
use lumen.Proto.Command as Proto

abbrev no_fields : Mapping
no_fields = record { fields = [] }

abbrev notes : Entry
notes = record { uuid = 40; created_seq = 1; mapping = no_fields }

abbrev pub catalog : Catalog Memory
catalog = record {
  seq = 1;
  wal = empty_log 16;
  collections = (bytes "notes", notes) ∷ [];
  dirs = (40, record { schema = []; payload = none; searchable = []; pending = [] }) ∷ [];
  snapshot = none;
  quarantine = [];
}

abbrev pub at_nine : LogMark
at_nine = record { term = 1; node = 1; index = 9 }

abbrev pub checked : Catalog Memory
checked = persist numbers 9 (record catalog {
  dirs =
      (40, record { schema = []; payload = some (1 ∷ 1 ∷ 9 ∷ []); searchable = []; pending = [] })
      ∷ [];
})

pub checkpoint : checkpoint_applied memory numbers at_nine catalog ≡ (done tt, checked)
unfolding checkpoint_applied commit commit_each commit_entry
checkpoint = refl

abbrev pub old_write : Proto.Op
old_write =
    Proto.index_document
      (record { collection = bytes "notes"; id = bytes "a"; source = bytes "{}" })

replay-checkpoint_example :
    (apply_command memory numbers
      (record { term = 1; node = 1; index = 8 })
      (record { op = some old_write })
      checked).1
    ≡ checked
unfolding IsDocument
replay-checkpoint_example =
    replay-checkpoint memory numbers at_nine (record { term = 1; node = 1; index = 8 }) catalog
      checked old_write checkpoint tt (omega arith)

abbrev create : Proto.CreateCollection
create = record {
  collection = bytes "new";
  mapping = some (record { fields = [] });
  uuid = 41 ∷ [];
}

abbrev created : Catalog Memory
created = persist numbers 9 (record catalog {
  collections =
      (bytes "new", record { uuid = 41; created_seq = 9; mapping = no_fields })
      ∷ (bytes "notes", notes)
      ∷ [];
  dirs =
      (40, record { schema = []; payload = none; searchable = []; pending = [] })
      ∷ (41, record { schema = to_schema no_fields; payload = none; searchable = []; pending = [] })
      ∷ [];
})

applied : apply_create memory numbers at_nine create catalog ≡ (done tt, created)
unfolding apply_create collect_fields new validate_fields
applied = refl

apply_create-twice_example :
    apply_create memory numbers (record { term = 1; node = 1; index = 10 }) create created
    ≡ (done tt, created)
apply_create-twice_example =
    apply_create-twice memory numbers at_nine (record { term = 1; node = 1; index = 10 }) create
      catalog created applied
