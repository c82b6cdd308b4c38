-- ===== src/Base/Outcome.antt =====
-- Rust's `Result`, with `?` as bind and `collect` over a list of results.
use mathlib.Core.Path.{◌≡◌, refl, ap}
use mathlib.Core.Logic.{◌⊎◌, inl, inr, ◌≢◌}
use mathlib.Core.List.{List, [], ◌∷◌, map}
use mathlib.Core.Option.{Option, none, some}
use native.Mathlib.Omega.{arith}

pub data Result {ℓ κ} (E : Type ℓ) (A : Type κ) : Type (ℓ ⊔ κ) where
  ok : A → Result E A
  err : E → Result E A

infixl 5 ◌>>=◌ ◌>>◌
abbrev pub ◌>>=◌ {ℓ κ μ} :
    {E : Type ℓ} {A : Type κ} {B : Type μ} → Result E A → (A → Result E B) → Result E B
ok a >>= f = f a
err e >>= f = err e

abbrev pub ◌>>◌ {ℓ κ} : {E : Type ℓ} {B : Type κ} → Result E (Unit {0}) → Result E B → Result E B
m >> k = m >>= λ _. k

-- `ok_or`, `map_err`, `transpose` of an optional conversion.
module _ {ℓ κ} {E : Type ℓ} {A : Type κ} where
  abbrev pub ok_or : Option A → E → Result E A
  ok_or none e = err e
  ok_or (some a) e = ok a

  abbrev pub map_err {μ} : {F : Type μ} → (E → F) → Result E A → Result F A
  map_err f (ok a) = ok a
  map_err f (err e) = err (f e)

  abbrev pub map_ok {μ} : {B : Type μ} → (A → B) → Result E A → Result E B
  map_ok f (ok a) = ok (f a)
  map_ok f (err e) = err e

  abbrev pub transpose {μ} : {B : Type μ} → (B → Result E A) → Option B → Result E (Option A)
  transpose f none = ok none
  transpose f (some b) = elim (f b) [ ok a ↦ ok (some a) | err e ↦ err e ]

  -- `iter().map(f).collect::<Result<Vec<_>>>()`: the first error ends the walk.
  unfoldable pub try_map {μ} : {B : Type μ} → (B → Result E A) → List B → Result E (List A)
  try_map f [] = ok []
  try_map f (x ∷ xs) = do a ← f x; rest ← try_map f xs; ok (a ∷ rest)

pub Result-cases {ℓ κ} :
    {E : Type ℓ} {A : Type κ} (r : Result E A) → ((e : E) × (r ≡ err e)) ⊎ ((a : A) × (r ≡ ok a))
Result-cases (ok a) = inr (a, refl)
Result-cases (err e) = inl (e, refl)

pub some_inj {ℓ} : {A : Type ℓ} (a b : A) → some a ≡ some b → a ≡ b
some_inj a b h = cc

pub ok_inj {ℓ κ} : {E : Type ℓ} {A : Type κ} (a b : A) → ◌≡◌ {A = Result E A} (ok a) (ok b) → a ≡ b
ok_inj a b h = cc

pub none_some {ℓ} : {A : Type ℓ} (a : A) → ◌≢◌ {A = Option A} none (some a)
none_some a h = ground arith

pub err_ok {ℓ κ} : {E : Type ℓ} {A : Type κ} (e : E) (a : A) → ◌≢◌ {A = Result E A} (err e) (ok a)
err_ok e a h = ground arith

module _ {ℓ κ μ} {E : Type ℓ} {A : Type κ} {B : Type μ} where
  -- A conversion that undoes `g` at every element undoes `map g`.
  pub try_map-map :
      (f : B → Result E A) (g : A → B)
      → ((a : A) → f (g a) ≡ ok a)
      → (xs : List A) → try_map f (map g xs) ≡ ok xs
  unfolding try_map
  try_map-map f g h [] = refl
  try_map-map f g h (x ∷ xs) = ground (arith, h x, try_map-map f g h xs)

module _ {ℓ κ μ} {E : Type ℓ} {A : Type κ} {B : Type μ} where
  pub bind_cong :
      (m : Result E A) (f g : A → Result E B) → ((a : A) → f a ≡ g a) → (m >>= f) ≡ (m >>= g)
  bind_cong (ok a) f g h = h a
  bind_cong (err e) f g h = refl

module _ {ℓ κ μ ν} {E : Type ℓ} {A : Type κ} {B : Type μ} {C : Type ν} where
  -- Another end of a chain that succeeds.
  pub bind_ok :
      (m : Result E A) (f : A → Result E B) (g : A → Result E C) (b : B) (c : C)
      → (m >>= f) ≡ ok b
      → ((a : A) → f a ≡ ok b → g a ≡ ok c)
      → (m >>= g) ≡ ok c
  bind_ok (ok a) f g b c e h = h a e
  bind_ok (err x) f g b c e h = ground arith

module _ {ℓ κ} {E : Type ℓ} {A : Type κ} where
  -- What `ok_or` returned was there.
  pub ok_or-some : (o : Option A) (e : E) (a : A) → ok_or o e ≡ ok a → o ≡ some a
  ok_or-some none e a h = absurd (err_ok e a h)
  ok_or-some (some b) e a h = ap some (ok_inj b a h)
