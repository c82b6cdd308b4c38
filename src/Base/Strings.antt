-- ===== src/Base/Strings.antt =====
-- `String` and `&str`: the bytes of the UTF-8 text, ordered as the bytes are.
use Prim.Native.Char.{code}
use Prim.Native.Nat.{ℕ, compare, Ordering}
use Prim.Native.String.{String}
use mathlib.Core.Path.{◌≡◌, refl}
use mathlib.Core.Logic.{◌↔◌}
use mathlib.Core.Bool.{Bool, true, false}
use mathlib.Core.List.{List, [], ◌∷◌}
use native.Mathlib.Omega.{arith}
use lumen.Base.Ordered.{Ord}

abbrev pub Text : Type 0
Text = List ℕ

-- The bytes of an ASCII literal.
abbrev pub bytes : String → Text
bytes String.[] = []
bytes (String.◌∷◌ c s) = code c ∷ bytes s

unfoldable pub text_cmp : Text → Text → Ordering
text_cmp [] [] = Ordering.eq
text_cmp [] (y ∷ ys) = Ordering.lt
text_cmp (x ∷ xs) [] = Ordering.gt
text_cmp (x ∷ xs) (y ∷ ys) = elim (compare x y) [ Ordering.eq ↦ text_cmp xs ys | o ↦ o ]

abbrev pub text_eq : Text → Text → Bool
unfolding text_cmp
text_eq a b = elim (text_cmp a b) [ Ordering.eq ↦ true | _ ↦ false ]

pub text_cmp_eq : (a b : Text) → (text_cmp a b ≡ Ordering.eq) ↔ (a ≡ b)
unfolding text_cmp
text_cmp_eq [] [] = ground arith
text_cmp_eq [] (y ∷ ys) = ground arith
text_cmp_eq (x ∷ xs) [] = ground arith
text_cmp_eq (x ∷ xs) (y ∷ ys) = ground (arith, text_cmp_eq xs ys)

pub text_cmp_lt : (a b : Text) → (text_cmp a b ≡ Ordering.lt) ↔ (text_cmp b a ≡ Ordering.gt)
unfolding text_cmp
text_cmp_lt [] [] = ground arith
text_cmp_lt [] (y ∷ ys) = ground arith
text_cmp_lt (x ∷ xs) [] = ground arith
text_cmp_lt (x ∷ xs) (y ∷ ys) = ground (arith, text_cmp_lt xs ys)

pub text_cmp_trans :
    (a b c : Text)
    → text_cmp a b ≡ Ordering.lt
    → text_cmp b c ≡ Ordering.lt
    → text_cmp a c ≡ Ordering.lt
unfolding text_cmp
text_cmp_trans [] [] c h k = cc
text_cmp_trans [] (y ∷ ys) [] h k = cc
text_cmp_trans [] (y ∷ ys) (z ∷ zs) h k = refl
text_cmp_trans (x ∷ xs) [] c h k = cc
text_cmp_trans (x ∷ xs) (y ∷ ys) [] h k = cc
text_cmp_trans (x ∷ xs) (y ∷ ys) (z ∷ zs) h k = ground (arith, text_cmp_trans xs ys zs)

instance abbrev pub text_ord : Ord Text
text_ord = record {
  cmp = text_cmp;
  cmp_eq = text_cmp_eq;
  cmp_lt = text_cmp_lt;
  cmp_trans = text_cmp_trans;
}

pub text_eq_iff : (a b : Text) → (text_eq a b ≡ true) ↔ (a ≡ b)
unfolding text_cmp
text_eq_iff a b = ground (arith, text_cmp_eq a b)
