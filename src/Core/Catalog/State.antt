-- ===== src/Core/Catalog/State.antt =====
-- The state of a catalog and the actions on it (crates/core/src/catalog.rs). An action that fails
-- leaves what it wrote before it failed. A `HashMap` is a map in the order of its keys, which is the
-- order in which the model walks it.
use lumen.Base.{ℕ, Text, Option, List, BTreeMap, ok, err, text_ord, ◌≡◌, refl, arith}
use lumen.Core.Error.{Error, Fallible, Outcome, done, failed, panicked}
use lumen.Core.Mapping.{Mapping}
use lumen.Core.Log.{SegmentedLog}
use lumen.Core.Log.Frame.{Bytes}

-- The mapping of the entry's collection; its index stands under the uuid in `dirs`.
pub record Entry : Type 0 where
  pub uuid : ℕ
  pub created_seq : ℕ
  pub mapping : Mapping

pub record Catalog (Index : Type 0) : Type 0 where
  pub seq : ℕ
  pub wal : SegmentedLog
  pub collections : BTreeMap Text Entry
  -- below the root: the collections' directories, the bytes of `catalog.pb`, and `_quarantine` with the uuid and
  -- the number in each name
  pub dirs : BTreeMap ℕ Index
  pub snapshot : Option Bytes
  pub quarantine : List (ℕ × ℕ)

-- Actions on a state.
abbrev pub Action : Type 0 → Type 0 → Type 0
Action S A = S → Outcome A × S

module _ {S : Type 0} where
  abbrev pub pure : {A : Type 0} → A → Action S A
  pure a c = (done a, c)

  abbrev pub fail : {A : Type 0} → Error → Action S A
  fail e c = (failed e, c)

  abbrev pub lift : {A : Type 0} → Fallible A → Action S A
  lift (ok a) c = (done a, c)
  lift (err e) c = (failed e, c)

  abbrev lift_outcome : {A : Type 0} → Outcome A → Action S A
  lift_outcome o c = (o, c)

  abbrev pub gets : {A : Type 0} → (S → A) → Action S A
  gets f c = (done (f c), c)

  abbrev pub modify : (S → S) → Action S (Unit {0})
  modify f c = (done tt, f c)

  abbrev pub continue : {A B : Type 0} → (A → Action S B) → Outcome A → S → Outcome B × S
  continue f (done a) c = f a c
  continue f (failed e) c = (failed e, c)
  continue f panicked c = (panicked, c)

  infixl 5 ◌>>=◌ ◌>>◌
  abbrev pub ◌>>=◌ : {A B : Type 0} → Action S A → (A → Action S B) → Action S B
  ◌>>=◌ m f c = let (r, c') = m c in continue f r c'

  abbrev pub ◌>>◌ : {B : Type 0} → Action S (Unit {0}) → Action S B → Action S B
  m >> k = m >>= λ _. k

  continue_done :
      {A B : Type 0} (f : A → Action S B) (r : Outcome A × S) (b : B) (c' : S)
      → (let (o, d) = r in continue f o d) ≡ (done b, c')
      → (a : A) × (d : S) × (r ≡ (done a, d)) × (f a d ≡ (done b, c'))
  continue_done f (done a, d) b c' h = (a, d, refl, h)
  continue_done f (failed e, d) b c' h = ground arith
  continue_done f (panicked, d) b c' h = ground arith

  -- A chain that succeeds: its first action did, and then the rest.
  pub bind_done :
      {A B : Type 0} (m : Action S A) (f : A → Action S B) (c : S) (b : B) (c' : S)
      → (m >>= f) c ≡ (done b, c')
      → (a : A) × (d : S) × (m c ≡ (done a, d)) × (f a d ≡ (done b, c'))
  bind_done m f c b c' h = continue_done f (m c) b c' h
