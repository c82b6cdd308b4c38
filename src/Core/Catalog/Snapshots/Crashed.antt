-- ===== src/Core/Catalog/Snapshots/Crashed.antt =====
-- A crash in the middle of `install_snapshot` of crates/core/src/catalog.rs, between the two renames
-- of a collection's directory.
use lumen.Base.{
  ℕ, Text, text_ord, nat_ord, some, List, [], ◌∷◌, map, All, BTreeMap, get, remove, get-insert_ne,
  get-remove_self, none_some, ok, ok_or, ok_or-some, ◌≡◌, ◌≢◌, sym, ap, ◌∙◌, subst,
}
use native.Mathlib.Decide.{ℕ_discrete}
use lumen.Core.Error.{done, recovery, missing_data_dir}
use lumen.Core.Json.{JsonApi}
use lumen.Core.Mapping.{mapping_into, mapping_try_from}
use lumen.Core.Catalog.Steps.{lift_then}
use lumen.Core.Tantivy.{TantivyApi}
use lumen.Core.Wal.{Externals, DecodesSnapshot, open_wal}
use lumen.Core.Log.{SegmentedLog}
use lumen.Core.Catalog.State.{Catalog, Entry, bind_done}
use lumen.Core.Catalog.Store.{persist, snapshot_proto}
use lumen.Core.Catalog.Open.{open_entry, open_entries, open_catalog, load_snapshot, max_entry_seq}
use lumen.Core.Catalog.Reopened.{AreApplied, HasDir, wire_entry, dropped_in_tail-AreApplied}
use lumen.Core.Catalog.Snapshots.{Directories}
use lumen.Core.Catalog.Swept.{get-All}
use lumen.Core.Catalog.Snapshots.Install.{set_aside}
use lumen.Proto.Command as Proto

module _ {json : JsonApi} (tantivy : TantivyApi json) (ext : Externals) where
  open tantivy use {Index}

  -- An entry that is opened had its directory, and leaves the other uuids' directories.
  open_entry_done :
      (e : Text × Entry) (c c' : Catalog Index)
      → open_entry tantivy ext (wire_entry tantivy ext e) c ≡ (done tt, c')
      → (i : Index) × (get e.1.uuid c.dirs ≡ some i)
        × ((v : ℕ) → e.1.uuid ≢ v → get v c'.dirs ≡ get v c.dirs)
  unfolding open_entry
  open_entry_done e c c' h =
      let u = e.1.uuid in
      lift_then (mapping_try_from (mapping_into e.1.mapping)) _ tt c c'
        (rw (ext.uuid_round_trip u, open_entry) at h)
        (λ m valid h1.
          lift_then (ok_or (get u c.dirs) (recovery (missing_data_dir (ext.uuid_text u)))) _ tt c c'
            h1
            (λ dir found h2. lift_then (tantivy.reopen dir) _ tt c c' h2 (λ index opens h3. (
              dir,
              ok_or-some (get u c.dirs) _ dir found,
              λ v ne. ap (λ r. get v r.1.dirs) (sym h3) ∙ get-insert_ne u v index c.dirs ne,
            ))))

  HasDir-before :
      (u : ℕ) (i : Index) (dirs dirs' : BTreeMap ℕ Index) (es : BTreeMap Text Entry)
      → get u dirs ≡ some i
      → ((v : ℕ) → u ≢ v → get v dirs' ≡ get v dirs)
      → All (HasDir tantivy ext dirs') es
      → All (HasDir tantivy ext dirs) es
  HasDir-before u i dirs dirs' [] at others h = tt
  HasDir-before u i dirs dirs' (e ∷ es) at others h = (
    elim (ℕ_discrete u e.1.uuid) [
      | yes q ↦ (i, subst (λ v. get v dirs ≡ some i) q at)
      | no ne ↦ (h.0.0, sym (others e.1.uuid ne) ∙ h.0.1)
    ],
    HasDir-before u i dirs dirs' es at others h.1,
  )

  -- Entries that are opened had their directories.
  open_entries_done :
      (es : BTreeMap Text Entry) (c c' : Catalog Index)
      → open_entries tantivy ext [] (map (wire_entry tantivy ext) es) c ≡ (done tt, c')
      → All (HasDir tantivy ext c.dirs) es
  unfolding open_entries
  open_entries_done [] c c' h = tt
  open_entries_done (e ∷ es) c c' h =
      let (_, d, first, rest) =
        bind_done (open_entry tantivy ext (wire_entry tantivy ext e)) _ c tt c' h in
      let (i, at, others) = open_entry_done e c d first in
      (
        (i, at),
        HasDir-before e.1.uuid i c.dirs d.dirs es at others (open_entries_done es d c' rest),
      )

  -- A crash of an installation after a collection's directory went aside, and before the one of the
  -- archive took its place: the old catalog cannot be opened any more, although prost decodes its
  -- snapshot and its log can be opened and has no entries after it.
  pub open_catalog-set_aside :
      (directories : Directories tantivy) (seq : ℕ) (c c' : Catalog Index) (wal : SegmentedLog)
      (entries : List Proto.WalEntry) (name : Text) (entry : Entry)
      → get name c.collections ≡ some entry
      → open_wal ext c.wal.disk ≡ ok (wal, entries)
      → AreApplied seq entries
      → DecodesSnapshot ext (snapshot_proto ext seq c)
      → open_catalog tantivy ext (set_aside tantivy directories ext entry.uuid (persist ext seq c))
        ≢ (done tt, c')
  unfolding open_catalog persist snapshot_proto load_snapshot set_aside DecodesSnapshot
  open_catalog-set_aside directories seq c c' wal entries name entry found opens applied decodes h =
      let c0 : Catalog Index = record (persist ext seq c) {
        wal = wal;
        seq = max_entry_seq seq entries;
        collections = [];
        dirs = remove entry.uuid c.dirs;
      } in
      let (_, d, ran, rest) =
        bind_done (open_entries tantivy ext [] (map (wire_entry tantivy ext) c.collections)) _ c0 tt
          c'
          (rw (decodes, opens, open_catalog, dropped_in_tail-AreApplied seq entries applied) at
            h) in
      let (i, at) =
        get-All (λ u. (i : Index) × (get u (remove entry.uuid c.dirs) ≡ some i)) name entry
          c.collections found (open_entries_done c.collections c0 d ran) in
      none_some i (sym (get-remove_self entry.uuid c.dirs) ∙ at)
