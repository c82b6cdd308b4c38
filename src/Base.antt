-- ===== src/Base.antt =====
-- The names that the other modules share: the libraries', passed on, and those of the children.
pub mod Tests
pub mod Lists
pub mod Outcome
pub mod Ordered
pub mod Strings
pub mod Whitespace
pub mod Decimal
pub use Tests.*
pub use Lists.*
pub use Outcome.*
pub use Strings.*
pub use Whitespace.*
unfoldable pub use Lists.{retain, all, any, sort, insert_sorted}
unfoldable pub use Tests.{saturating_suc}
unfoldable pub use Outcome.{try_map}
unfoldable pub use Strings.{text_cmp}
unfoldable pub use Decimal.{decimal, digits}
unfoldable pub use Whitespace.{trim, lines, split_once, strip_prefix}
pub use Ordered.{
  get-none-Above, get-insert_self, get-insert_ne, get-remove_ne, get-remove_self, get-insert-some,
  insert_all-nil, Joins-snoc, Joins-nil, Above-append, insert-Above, get-Above, replace-Above, Ord,
  nat_ord, BTreeMap, Above, Below, IsSorted, Joins,
}
unfoldable pub use Ordered.{get, insert, remove, contains, insert_all}
pub use Prim.Native.Nat.{
  ℕ, zero, suc, ◌+◌, ◌-◌, ◌*◌, ◌/◌, ◌%◌, ◌^◌, ◌≤◌, ◌<◌, compare, Ordering, max,
}
pub use mathlib.Core.Path.{◌≡◌, refl, sym, ap, ap₂, ◌∙◌, subst, ◌≡⟨◌⟩◌, ◌∎}
pub use mathlib.Core.Logic.{◌≢◌, ◌↔◌, ◌⊎◌, inl, inr}
pub use mathlib.Core.Bool.{Bool, true, false, not, ◌&&◌, ◌||◌}
pub use mathlib.Core.Option.{Option, none, some}
pub use mathlib.Core.List.{List, [], ◌∷◌, ◌++◌, map, append-nil, append_assoc, map-append}
pub use native.Mathlib.Omega.{arith}
