-- ===== src/Core/Catalog/Snapshots/Rebuilding.antt =====
-- The loop of `rebuild` in crates/core/src/catalog.rs on the entries of a snapshot that another
-- catalog wrote.
use lumen.Base.{
  ℕ, max, Text, text_ord, nat_ord, some, [], ◌∷◌, ◌++◌, map, All, BTreeMap, IsSorted, Joins,
  Joins-snoc, get, insert, get-insert_self, get-insert_ne, insert-Above, append_assoc, append-nil,
  ok, ◌≡◌, refl, sym, ◌∙◌, subst,
}
use native.Mathlib.Decide.{ℕ_discrete}
use lumen.Core.Error.{done}
use lumen.Core.Json.{JsonApi}
use lumen.Core.Mapping.Wire.{mapping_round_trip}
use lumen.Core.Tantivy.{TantivyApi}
use lumen.Core.Wal.{Externals}
use lumen.Core.Catalog.State.{Catalog, Entry}
use lumen.Core.Catalog.Reopened.{IsSound, wire_entry}
use lumen.Core.Catalog.Snapshots.{Directories}
use lumen.Core.Catalog.Snapshots.Archived.{HasCommit}
use lumen.Core.Catalog.Snapshots.Installed.{IsRestored}
use lumen.Core.Catalog.Snapshots.Install.{Rebuilt, rebuild_each}

module _ {json : JsonApi} (tantivy : TantivyApi json) (directories : Directories tantivy)
    (ext : Externals) where
  open tantivy use {Index}

  -- An index that is opened has the commit of the one on disk.
  reopen-HasCommit :
      (i j k : Index)
      → HasCommit tantivy directories i j
      → tantivy.reopen j ≡ ok k
      → HasCommit tantivy directories i k
  reopen-HasCommit i j k h e = record {
    searchable = tantivy.searchable_reopen j k e ∙ h.searchable;
    payload = tantivy.payload_reopen j k e ∙ h.payload;
    schema = tantivy.schema_reopen j k e ∙ h.schema;
  }

  module _ (orig : BTreeMap ℕ Index) where
    abbrev AreRestored : BTreeMap ℕ Index → BTreeMap Text Entry → Type 0
    AreRestored dirs =
        All (λ (e : Text × Entry). IsRestored tantivy directories ext orig dirs e.1.uuid)

    insert-IsRestored :
        (u v : ℕ) (i k : Index) (dirs : BTreeMap ℕ Index)
        → get u orig ≡ some i
        → HasCommit tantivy directories i k
        → IsRestored tantivy directories ext orig dirs v
        → IsRestored tantivy directories ext orig (insert u k dirs) v
    unfolding IsRestored
    insert-IsRestored u v i k dirs at commit r = elim (ℕ_discrete u v) [
      | yes q ↦
          subst (IsRestored tantivy directories ext orig (insert u k dirs)) q
            (i, k, at, get-insert_self u k dirs, commit)
      | no ne ↦ (r.0, r.1, r.2, get-insert_ne u v k dirs ne ∙ r.3, r.4)
    ]

    insert-AreRestored :
        (u : ℕ) (i k : Index) (dirs : BTreeMap ℕ Index) (es : BTreeMap Text Entry)
        → get u orig ≡ some i
        → HasCommit tantivy directories i k
        → AreRestored dirs es
        → AreRestored (insert u k dirs) es
    insert-AreRestored u i k dirs [] at commit h = tt
    insert-AreRestored u i k dirs (e ∷ es) at commit h = (
      insert-IsRestored u e.1.uuid i k dirs at commit h.0,
      insert-AreRestored u i k dirs es at commit h.1,
    )

    module _ (reopens : (i : Index) → (j : Index) × (tantivy.reopen i ≡ ok j)) where
      pub rebuild_each-wire :
          (es : BTreeMap Text Entry) (rebuilt : Rebuilt) (c : Catalog Index)
          → IsSorted es
          → Joins rebuilt.collections es
          → All IsSound es
          → AreRestored c.dirs es
          → (rebuilt' : Rebuilt) × (c' : Catalog Index) × (rebuild_each tantivy directories ext
                (map (wire_entry tantivy ext) es)
                rebuilt
                c
              ≡ (done rebuilt', c'))
            × (rebuilt'.collections ≡ rebuilt.collections ++ es)
            × ((v : ℕ)
                → IsRestored tantivy directories ext orig c.dirs v
                → IsRestored tantivy directories ext orig c'.dirs v)
      unfolding rebuild_each IsRestored
      rebuild_each-wire [] rebuilt c sorted joins sound restored =
          (rebuilt, c, refl, sym (append-nil rebuilt.collections), λ v r. r)
      rebuild_each-wire (e ∷ es) rebuilt c sorted joins sound restored =
          let (i, j, at, there, commit) = restored.0 in
          let (k, opens) = reopens j in
          let u = e.1.uuid in
          let commit' = reopen-HasCommit i j k commit opens in
          let rebuilt1 : Rebuilt = record {
            collections = rebuilt.collections ++ e ∷ [];
            max_seq = max rebuilt.max_seq e.1.created_seq;
          } in
          let c1 : Catalog Index = record c { dirs = insert u k c.dirs } in
          let (rebuilt', c', ran, same, kept) =
            rebuild_each-wire es rebuilt1 c1 sorted.1
              (Joins-snoc e.0 e.1 rebuilt.collections es sorted.0 joins.1) sound.1
              (insert-AreRestored u i k c.dirs es at commit' restored.1) in
          (
            rebuilt',
            c',
            rw
                (
                  ext.uuid_round_trip u,
                  rebuild_each,
                  mapping_round_trip e.1.mapping sound.0.0 sound.0.1,
                  there,
                  opens,
                  insert-Above e.0 e.1 rebuilt.collections joins.0,
                )
                ran,
            same ∙ append_assoc rebuilt.collections (e ∷ []) es,
            λ v r. kept v (insert-IsRestored u v i k c.dirs at commit' r),
          )
