-- ===== src/Examples/Restarts.antt =====
-- A collection with a document, before and after a restart.
use lumen.Base.{
  ok, ◌≡◌, refl, get, text_ord, text_cmp, text_eq, nat_ord, [], ◌∷◌, some, none, false, bytes, inl,
  inr, Text, try_map, retain,
}
use lumen.Core.Error.{done}
use lumen.Core.Mapping.Schema.{to_schema, id_field, source_field}
use lumen.Core.Mapping.Valid.{AreValid}
use lumen.Core.Document.{Document}
use lumen.Core.Tantivy.{having}
use lumen.Core.Search.{system_fields}
use lumen.Core.Collection.Reads.{headed}
use lumen.Core.Collection.Contents.{IsKeyed, updated-IsKeyed, has_id-headed_other}
use lumen.Core.Wal.{DecodesSnapshot, open_wal, default_segment_max}
use lumen.Core.Log.{SegmentedLog}
use lumen.Core.Log.Durability.{empty_log}
use lumen.Core.Catalog.State.{Catalog}
use lumen.Core.Catalog.Store.{persist, snapshot_proto}
use lumen.Core.Catalog.Open.{open_catalog}
use lumen.Core.Catalog.Writes.{get_document}
use lumen.Core.Catalog.Restarted.{get_document-open_catalog}
use lumen.Examples.Documents.{tags, shelf, library}
use lumen.Examples.Instances.{Memory, memory, numbers, texts}

abbrev note : Document texts
note = headed (bytes "a") (bytes "tag") []

abbrev stock : Memory
stock = record {
  schema = to_schema tags;
  payload = none;
  searchable = note ∷ [];
  pending = note ∷ [];
}

abbrev stocked : Catalog Memory
stocked = record library { dirs = (40, stock) ∷ [] }

no_notes-IsKeyed : IsKeyed {json = texts} []
unfolding having retain
no_notes-IsKeyed id = inl refl

others : (id : Text) → text_eq (bytes "a") id ≡ false → having id (note ∷ []) ≡ []
unfolding having retain
others id other = rw (has_id-headed_other {json = texts} (bytes "a") id other (bytes "tag") []) refl

note-IsKeyed : IsKeyed (note ∷ [])
unfolding having retain
note-IsKeyed =
    updated-IsKeyed (bytes "a") (some (bytes "tag")) [] (note ∷ []) no_notes-IsKeyed others
      (inr (bytes "tag", [], refl, refl))

stock_fields : system_fields stock.schema ≡ some (id_field, source_field)
unfolding system_fields to_schema
stock_fields = refl

stock_dir : get 40 stocked.dirs ≡ some stock
unfolding get
stock_dir = refl

shelf_entry : get (bytes "shelf") stocked.collections ≡ some shelf
unfolding get text_cmp
shelf_entry = refl

tag_valid : AreValid tags.fields
tag_valid = (record { named = λ e. cc; not_reserved = refl; not_fast_text = λ e. cc }, tt)

abbrev empty_wal : SegmentedLog
empty_wal = empty_log default_segment_max

nothing_logged : open_wal numbers stocked.wal.disk ≡ ok (empty_wal, [])
unfolding open_wal try_map
nothing_logged = refl

stocked_decodes : DecodesSnapshot numbers (snapshot_proto numbers 3 stocked)
unfolding DecodesSnapshot snapshot_proto
stocked_decodes = refl

get_document-open_catalog_example :
    (c : Catalog Memory) × (open_catalog memory numbers (persist numbers 3 stocked) ≡ (done tt, c))
    × ((id : Text)
        → (get_document memory numbers (bytes "shelf") id c).0
          ≡ (get_document memory numbers (bytes "shelf") id stocked).0)
get_document-open_catalog_example =
    get_document-open_catalog memory numbers (λ i. (record i { pending = i.searchable }, refl)) 3
      stocked empty_wal [] (bytes "shelf") shelf stock (tt, tt) (((tt, tt), tag_valid), tt)
      ((stock, stock_dir), tt) nothing_logged tt stocked_decodes shelf_entry stock_dir note-IsKeyed
      stock_fields
