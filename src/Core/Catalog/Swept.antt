-- ===== src/Core/Catalog/Swept.antt =====
-- The directories that opening a catalog keeps (`sweep_orphans` of crates/core/src/catalog.rs).
use lumen.Base.{
  ℕ, Text, text_ord, nat_ord, Bool, Bool-cases, true, false, some, List, [], ◌∷◌, All, any, ◌==◌,
  ◌||◌, ==_refl, BTreeMap, get, remove, get-remove_ne, inl, inr, ◌≡◌, ◌≢◌, refl, sym, ◌∙◌, subst,
  arith,
}
use lumen.Core.Catalog.State.{Catalog, Entry}
use lumen.Core.Catalog.Store.{sweep_dirs, live_uuids}
use lumen.Core.Catalog.Committed.{get_found}

not_both : {b : Bool} → b ≡ true → b ≡ false → ⊥
not_both h k = ground arith

or_left : (a b : Bool) → a ≡ true → (a || b) ≡ true
or_left a b h = ground arith

or_right : (a b : Bool) → b ≡ true → (a || b) ≡ true
or_right a b h = ground arith

module _ {Index : Type 0} where
  -- The sweep keeps the directories that are some collection's.
  pub sweep_dirs-get :
      (live : List ℕ) (high v : ℕ) (dirs : BTreeMap ℕ Index) (c : Catalog Index)
      → any (λ u. u == v) live ≡ true
      → get v (sweep_dirs live high dirs c).dirs ≡ get v c.dirs
  unfolding sweep_dirs
  sweep_dirs-get live high v [] c h = refl
  sweep_dirs-get live high v ((u, i) ∷ dirs) c h = elim (Bool-cases (any (λ w. w == u) live)) [
    | inl e ↦ rw (e, sweep_dirs) (sweep_dirs-get live high v dirs c h)
    | inr e ↦
        let ne : u ≢ v = λ q. not_both (subst (λ t. any (λ w. w == t) live ≡ true) (sym q) h) e in
        let c1 : Catalog Index = record c {
          dirs = remove u c.dirs;
          quarantine = (u, high) ∷ c.quarantine;
        } in
        rw (e, sweep_dirs) (sweep_dirs-get live high v dirs c1 h ∙ get-remove_ne u v c.dirs ne)
  ]

-- The uuid of every collection is among the live ones.
pub live_uuids-All :
    (live : List ℕ) (es : BTreeMap Text Entry)
    → ((v : ℕ) → any (λ u. u == v) (live_uuids es) ≡ true → any (λ u. u == v) live ≡ true)
    → All (λ (e : Text × Entry). any (λ u. u == e.1.uuid) live ≡ true) es
unfolding live_uuids any
live_uuids-All live [] h = tt
live_uuids-All live (e ∷ es) h = (
  h e.1.uuid (
      or_left (e.1.uuid == e.1.uuid) (any (λ u. u == e.1.uuid) (live_uuids es)) (==_refl e.1.uuid)),
  live_uuids-All live es
      (λ v found. h v (or_right (e.1.uuid == v) (any (λ u. u == v) (live_uuids es)) found)),
)

-- A property of every collection holds of the one under a name.
pub get-All :
    (P : ℕ → Type 0) (name : Text) (entry : Entry) (es : BTreeMap Text Entry)
    → get name es ≡ some entry
    → All (λ (e : Text × Entry). P e.1.uuid) es
    → P entry.uuid
unfolding get
get-All P name entry [] h all = ground arith
get-All P name entry ((n, e) ∷ es) h all = elim (get_found name n e entry es h) [
  | inl q ↦ subst (λ x. P x.uuid) q all.0
  | inr q ↦ get-All P name entry es q all.1
]

-- The sweep of a catalog keeps the directory of each of its collections.
pub sweep_orphans-get :
    {Index : Type 0} (name : Text) (entry : Entry) (high : ℕ) (c : Catalog Index)
    → get name c.collections ≡ some entry
    → get entry.uuid (sweep_dirs (live_uuids c.collections) high c.dirs c).dirs
      ≡ get entry.uuid c.dirs
sweep_orphans-get name entry high c found =
    let live : List ℕ = live_uuids c.collections in
    sweep_dirs-get live high entry.uuid c.dirs c (
      get-All (λ v. any (λ u. u == v) live ≡ true) name entry c.collections found
        (live_uuids-All live c.collections (λ v h. h)))
