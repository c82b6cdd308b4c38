-- ===== src/Base/Ordered.antt =====
-- `BTreeMap` of the standard library: an association list in the order of the keys.
use Prim.Native.Nat.{ℕ, compare, Ordering}
use mathlib.Core.Path.{◌≡◌, refl, sym, ap, ◌∙◌}
use mathlib.Core.Logic.{◌↔◌, ◌≢◌}
use mathlib.Core.Bool.{Bool, true, false}
use mathlib.Core.Option.{Option, none, some}
use mathlib.Core.List.{List, [], ◌∷◌, ◌++◌, append_assoc, append-nil}
use native.Mathlib.Omega.{arith}

-- `std::cmp::Ord`, with the laws that it documents.
pub record Ord {ℓ} (K : Type ℓ) : Type ℓ where
  pub cmp : K → K → Ordering
  pub cmp_eq : (a b : K) → (cmp a b ≡ Ordering.eq) ↔ (a ≡ b)
  pub cmp_lt : (a b : K) → (cmp a b ≡ Ordering.lt) ↔ (cmp b a ≡ Ordering.gt)
  pub cmp_trans :
      (a b c : K) → cmp a b ≡ Ordering.lt → cmp b c ≡ Ordering.lt → cmp a c ≡ Ordering.lt

pub nat_eq : (a b : ℕ) → (compare a b ≡ Ordering.eq) ↔ (a ≡ b)
nat_eq a b = ground arith

pub nat_lt : (a b : ℕ) → (compare a b ≡ Ordering.lt) ↔ (compare b a ≡ Ordering.gt)
nat_lt a b = ground arith

pub nat_trans :
    (a b c : ℕ) → compare a b ≡ Ordering.lt → compare b c ≡ Ordering.lt → compare a c ≡ Ordering.lt
nat_trans a b c h k = ground arith

instance abbrev pub nat_ord : Ord ℕ
nat_ord = record { cmp = compare; cmp_eq = nat_eq; cmp_lt = nat_lt; cmp_trans = nat_trans }

abbrev pub BTreeMap {ℓ κ} : Type ℓ → Type κ → Type (ℓ ⊔ κ)
BTreeMap K V = List (K × V)

module _ {ℓ κ} {K : Type ℓ} {V : Type κ} ⦃o : Ord K⦄ where
  unfoldable pub get : K → BTreeMap K V → Option V
  get k [] = none
  get k ((j, v) ∷ m) = elim (o.cmp k j) [ Ordering.eq ↦ some v | _ ↦ get k m ]

  unfoldable pub insert : K → V → BTreeMap K V → BTreeMap K V
  insert k v [] = (k, v) ∷ []
  insert k v ((j, w) ∷ m) = elim (o.cmp k j) [
    | Ordering.lt ↦ (k, v) ∷ (j, w) ∷ m
    | Ordering.eq ↦ (k, v) ∷ m
    | Ordering.gt ↦ (j, w) ∷ insert k v m
  ]

  unfoldable pub remove : K → BTreeMap K V → BTreeMap K V
  remove k [] = []
  remove k ((j, w) ∷ m) = elim (o.cmp k j) [ Ordering.eq ↦ remove k m | _ ↦ (j, w) ∷ remove k m ]

  unfoldable pub contains : K → BTreeMap K V → Bool
  unfolding get
  contains k m = elim (get k m) [ none ↦ false | some v ↦ true ]

  -- `collect` from an iterator of pairs.
  unfoldable pub insert_all : List (K × V) → BTreeMap K V → BTreeMap K V
  insert_all [] m = m
  insert_all ((k, v) ∷ xs) m = insert_all xs (insert k v m)

  -- Every key of `m` is below `k`.
  abbrev pub Above : K → BTreeMap K V → Type (ℓ ⊔ κ)
  Above k [] = Unit
  Above k ((j, w) ∷ m) = (o.cmp j k ≡ Ordering.lt) × Above k m

  -- Every key of `m` is above `k`.
  abbrev pub Below : K → BTreeMap K V → Type (ℓ ⊔ κ)
  Below k [] = Unit
  Below k ((j, w) ∷ m) = (o.cmp k j ≡ Ordering.lt) × Below k m

  abbrev pub IsSorted : BTreeMap K V → Type (ℓ ⊔ κ)
  IsSorted [] = Unit
  IsSorted ((k, v) ∷ m) = Below k m × IsSorted m

module _ {ℓ κ} {K : Type ℓ} {V : Type κ} ⦃o : Ord K⦄ where
  pub get-insert_self : (k : K) (v : V) (m : BTreeMap K V) → get k (insert k v m) ≡ some v
  unfolding get insert
  get-insert_self k v [] = ground (arith, o.cmp_eq k k)
  get-insert_self k v ((j, w) ∷ m) = ground (arith, o.cmp_eq k k, get-insert_self k v m)

  pub get-insert_ne :
      (k j : K) (v : V) (m : BTreeMap K V) → ¬ (k ≡ j) → get j (insert k v m) ≡ get j m
  unfolding get insert
  get-insert_ne k j v [] h = ground (arith, o.cmp_eq j k)
  get-insert_ne k j v ((i, w) ∷ m) h =
      ground (arith, o.cmp_eq j k, o.cmp_eq k i, o.cmp_eq j i, get-insert_ne k j v m h)

  pub get-remove_ne : (k j : K) (m : BTreeMap K V) → k ≢ j → get j (remove k m) ≡ get j m
  unfolding get remove
  get-remove_ne k j [] h = refl
  get-remove_ne k j ((i, w) ∷ m) h =
      ground (arith, o.cmp_eq j k, o.cmp_eq k i, o.cmp_eq j i, get-remove_ne k j m h)

  pub get-remove_self : (k : K) (m : BTreeMap K V) → get k (remove k m) ≡ none
  unfolding get remove
  get-remove_self k [] = refl
  get-remove_self k ((i, w) ∷ m) = ground (arith, o.cmp_eq k i, get-remove_self k m)

  -- A key above all others is found after them, and is inserted and replaced after them.
  pub get-Above : (k : K) (v : V) (m : BTreeMap K V) → Above k m → get k (m ++ (k, v) ∷ []) ≡ some v
  unfolding get
  get-Above k v [] h = ground (arith, o.cmp_eq k k)
  get-Above k v ((j, w) ∷ m) h = ground (arith, o.cmp_lt j k, get-Above k v m h.1)

  pub replace-Above :
      (k : K) (v w : V) (m : BTreeMap K V)
      → Above k m
      → insert k w (m ++ (k, v) ∷ []) ≡ m ++ (k, w) ∷ []
  unfolding insert
  replace-Above k v w [] h = ground (arith, o.cmp_eq k k)
  replace-Above k v w ((j, x) ∷ m) h = ground (arith, o.cmp_lt j k, replace-Above k v w m h.1)

  pub insert-Above :
      (k : K) (v : V) (m : BTreeMap K V) → Above k m → insert k v m ≡ m ++ (k, v) ∷ []
  unfolding insert
  insert-Above k v [] h = refl
  insert-Above k v ((j, w) ∷ m) h = ground (arith, o.cmp_lt j k, insert-Above k v m h.1)

  pub Above-append : (k : K) (m n : BTreeMap K V) → Above k m → Above k n → Above k (m ++ n)
  Above-append k [] n h g = g
  Above-append k (x ∷ m) n h g = (h.0, Above-append k m n h.1 g)

  -- The keys of `m` are below those of `n`.
  abbrev pub Joins : BTreeMap K V → BTreeMap K V → Type (ℓ ⊔ κ)
  Joins m [] = Unit
  Joins m ((k, v) ∷ n) = Above k m × Joins m n

  -- A key above all others is not there.
  pub get-none-Above : (k : K) (m : BTreeMap K V) → Above k m → get k m ≡ none
  unfolding get
  get-none-Above k [] a = refl
  get-none-Above k ((j, w) ∷ m) a = ground (arith, o.cmp_lt j k, get-none-Above k m a.1)

  pub Joins-snoc :
      (k : K) (v : V) (m n : BTreeMap K V) → Below k n → Joins m n → Joins (m ++ (k, v) ∷ []) n
  Joins-snoc k v m [] b h = tt
  Joins-snoc k v m ((j, w) ∷ n) b h =
      (Above-append j m ((k, v) ∷ []) h.0 (b.0, tt), Joins-snoc k v m n b.1 h.1)

  -- Inserting a sorted run above all keys of the map appends it.
  insert_all_sorted : (n m : BTreeMap K V) → IsSorted n → Joins m n → insert_all n m ≡ m ++ n
  unfolding insert_all
  insert_all_sorted [] m s j = sym (append-nil m)
  insert_all_sorted ((k, v) ∷ n) m s j = rw (insert-Above k v m j.0) (
      insert_all_sorted n (m ++ (k, v) ∷ []) s.1 (Joins-snoc k v m n s.0 j.1)
      ∙ append_assoc m ((k, v) ∷ []) n)

  pub Joins-nil : (n : BTreeMap K V) → Joins [] n
  Joins-nil [] = tt
  Joins-nil (x ∷ n) = (tt, Joins-nil n)

  -- Collecting a sorted list gives the list.
  pub insert_all-nil : (n : BTreeMap K V) → IsSorted n → insert_all n [] ≡ n
  insert_all-nil n s = insert_all_sorted n [] s (Joins-nil n)

-- What was there is there after an insertion, or what was inserted is.
pub get-insert-some {κ} :
    {A : Type κ} (k j : ℕ) (v w : A) (m : BTreeMap ℕ A)
    → get j m ≡ some w
    → (x : A) × (get j (insert k v m) ≡ some x)
get-insert-some {A = A} k j v w m h = found (compare k j) refl
  where
    found : (o : Ordering) → compare k j ≡ o → (x : A) × (get j (insert k v m) ≡ some x)
    found Ordering.eq e =
        (v, ap (λ n. get n (insert k v m)) (sym ((nat_eq k j).0 e)) ∙ get-insert_self k v m)
    found Ordering.lt e = (w, get-insert_ne k j v m (λ q. ground arith) ∙ h)
    found Ordering.gt e = (w, get-insert_ne k j v m (λ q. ground arith) ∙ h)
