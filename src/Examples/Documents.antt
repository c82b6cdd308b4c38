-- ===== src/Examples/Documents.antt =====
-- A document that is written, committed and read.
use lumen.Base.{
  IsSorted, ok, ◌<◌, ◌≡◌, refl, sym, ap, subst, ◌∙◌, text_ord, text_cmp, nat_ord, get, [], ◌∷◌,
  some, none, true, bytes, arith, some_inj,
}
use lumen.Core.Mapping.{Mapping, keyword, validate_document, validate_values}
use lumen.Core.Mapping.Schema.{to_schema}
use lumen.Core.Error.{done, done_inj}
use lumen.Core.Tantivy.{LogMark, default_mark}
use lumen.Core.Document.{text_value}
use lumen.Core.Collection.{apply_delete, commit}
use lumen.Core.Mapping.Valid.{AreValid}
use lumen.Core.Wal.{DecodesSnapshot, open_wal, default_segment_max}
use lumen.Core.Wal as Wal
use lumen.Core.Log.{SegmentedLog}
use lumen.Core.Catalog.Open.{open_catalog}
use lumen.Core.Catalog.Reopened.{open_catalog-persist}
use lumen.Core.Catalog.State.{Catalog, Entry}
use lumen.Core.Catalog.Store.{mark_of, persist, snapshot_proto}
use lumen.Core.Catalog.Apply.{commit_collection, apply_command}
use lumen.Core.Catalog.Writes.{upsert_document, get_document}
use lumen.Core.Catalog.Upserts.{replay-upsert, index_op}
use lumen.Core.Catalog.Reads.{get_document-upsert}
use lumen.Core.Log.Durability.{empty_log}
use lumen.Examples.Instances.{Memory, memory, numbers}
use lumen.Core.Tantivy.{having}
use lumen.Core.Document.{value_of}
use lumen.Core.Mapping.{field}
use lumen.Core.Mapping.Schema.{add_fields}
use lumen.Core.Document.{add_values}
use lumen.Core.Mapping.Schema.{get_field}
use lumen.Core.Document.{build_doc}
use lumen.Core.Log.{append}
use lumen.Core.Collection.{commit}
use lumen.Core.Collection.{committed_mark}
use lumen.Base.{try_map}

abbrev pub tags : Mapping
tags = record { fields = (bytes "tag", record { ty = keyword; indexed = true; fast = true }) ∷ [] }

abbrev pub shelf : Entry
shelf = record { uuid = 40; created_seq = 1; mapping = tags }

abbrev pub library : Catalog Memory
library = record {
  seq = 1;
  wal = empty_log 16;
  collections = (bytes "shelf", shelf) ∷ [];
  dirs =
      (40, record { schema = to_schema tags; payload = none; searchable = []; pending = [] }) ∷ [];
  snapshot = none;
  quarantine = [];
}

abbrev pub written : Catalog Memory
written =
    (upsert_document memory numbers 7 (bytes "shelf") (some (bytes "a")) (bytes "tag") library).1

pub upserted :
    upsert_document memory numbers 7 (bytes "shelf") (some (bytes "a")) (bytes "tag") library
    ≡ (done (bytes "a", true), written)
unfolding upsert_document to_schema validate_values append build_doc get_field add_values add_fields
    field value_of having
upserted = refl

abbrev pub at_nine : LogMark
at_nine = record { term = 0; node = 0; index = 9 }

abbrev kept : Catalog Memory
kept = (commit_collection memory numbers (bytes "shelf") at_nine written).1

committed : commit_collection memory numbers (bytes "shelf") at_nine written ≡ (done tt, kept)
unfolding commit_collection upsert_document validate_values lumen.Core.Log.append
    lumen.Core.Document.build_doc lumen.Core.Mapping.Schema.get_field to_schema
    lumen.Core.Document.add_values lumen.Core.Mapping.Schema.add_fields lumen.Core.Mapping.field
    lumen.Core.Document.value_of committed_mark commit
committed = refl

pub shelf_found : get (bytes "shelf") library.collections ≡ some shelf
unfolding get text_cmp
shelf_found = refl

pub the_shelf :
    (entry : Entry) → get (bytes "shelf") library.collections ≡ some entry → shelf ≡ entry
the_shelf entry h = some_inj shelf entry (sym shelf_found ∙ h)

unmarked : mark_of memory shelf written ≡ (done default_mark, written)
unfolding mark_of upsert_document to_schema validate_values lumen.Core.Log.append
    lumen.Core.Document.build_doc lumen.Core.Mapping.Schema.get_field lumen.Core.Document.add_values
    lumen.Core.Mapping.Schema.add_fields lumen.Core.Mapping.field lumen.Core.Document.value_of
    lumen.Core.Collection.committed_mark
unmarked = refl

pub unmarked_before : mark_of memory shelf library ≡ (done default_mark, library)
unfolding mark_of lumen.Core.Collection.committed_mark
unmarked_before = refl

below_nine :
    (entry : Entry) (m : LogMark)
    → get (bytes "shelf") library.collections ≡ some entry
    → mark_of memory entry written ≡ (done m, written)
    → m.index < 9
below_nine entry m f h =
    let h' : mark_of memory shelf written ≡ (done m, written) =
      ap (λ e. mark_of memory e written) (the_shelf entry f) ∙ h in
    subst (λ x. x.index < 9) (done_inj default_mark m (ap (λ r. r.0) (sym (unmarked) ∙ h')))
      (omega arith)

get_document-upsert_example :
    get_document memory numbers (bytes "shelf") (bytes "a") kept ≡ (done (bytes "tag"), kept)
get_document-upsert_example =
    get_document-upsert memory numbers 7 (bytes "shelf") (some (bytes "a")) (bytes "tag")
      (bytes "a") true at_nine library written kept upserted below_nine committed

marked :
    (entry : Entry)
    → get (bytes "shelf") library.collections ≡ some entry
    → (m : LogMark) × (mark_of memory entry library ≡ (done m, library)) × (m.index < written.seq)
unfolding upsert_document validate_values append build_doc get_field to_schema add_values add_fields
    field value_of
marked entry f =
    subst
      (λ e.
        (m : LogMark) × (mark_of memory e library ≡ (done m, library)) × (m.index < written.seq))
      (the_shelf entry f) (default_mark, unmarked_before, omega arith)

replay-upsert_example :
    (Wal.append numbers
        (record {
          seq = written.seq;
          command =
              some (record { op = some (index_op (bytes "shelf") (bytes "a") (bytes "tag")) });
        })
        library.wal
      ≡ ok written.wal)
    × (apply_command memory numbers
          (record { term = 0; node = 0; index = written.seq })
          (record { op = some (index_op (bytes "shelf") (bytes "a") (bytes "tag")) })
          (record library { seq = written.seq; wal = written.wal })
        ≡ (done (record { id = bytes "a"; created = true }), written))
replay-upsert_example =
    replay-upsert memory numbers 7 (bytes "shelf") (some (bytes "a")) (bytes "tag") (bytes "a") true
      library written upserted marked

tag-IsSorted : IsSorted tags.fields
tag-IsSorted = (tt, tt)

tag_valid : AreValid tags.fields
tag_valid = (record { named = λ e. cc; not_reserved = refl; not_fast_text = λ e. cc }, tt)

shelf_dir :
    get 40 library.dirs
    ≡ some (record { schema = to_schema tags; payload = none; searchable = []; pending = [] })
unfolding get
shelf_dir = refl

abbrev empty_wal : SegmentedLog
empty_wal = empty_log default_segment_max

nothing_logged : open_wal numbers library.wal.disk ≡ ok (empty_wal, [])
unfolding open_wal try_map
nothing_logged = refl

pub library_decodes : DecodesSnapshot numbers (snapshot_proto numbers 3 library)
unfolding DecodesSnapshot snapshot_proto
library_decodes = refl

open_catalog-persist_example :
    (c : Catalog Memory) × (open_catalog memory numbers (persist numbers 3 library) ≡ (done tt, c))
    × (c.collections ≡ (bytes "shelf", shelf) ∷ [])
open_catalog-persist_example =
    open_catalog-persist memory numbers (λ i. (record i { pending = i.searchable }, refl)) 3 library
      empty_wal [] (tt, tt) ((tag-IsSorted, tag_valid), tt)
      (
        (
          record { schema = to_schema tags; payload = none; searchable = []; pending = [] },
          shelf_dir,
        ),
        tt,
      )
      nothing_logged tt library_decodes
