-- ===== src/Base/Decimal.antt =====
-- The `Display` of a `u64`.
use Prim.Native.Nat.{ℕ, zero, suc, ◌+◌, ◌/◌, ◌%◌}
use mathlib.Core.List.{[], ◌∷◌, ◌++◌}
use lumen.Base.Tests.{ltb, if◌then◌else◌}
use lumen.Base.Strings.{Text}

-- The digits of a number with at most as many as the fuel says.
unfoldable pub digits : ℕ → ℕ → Text
digits zero n = []
digits (suc fuel) n =
    let rest = digits fuel (n / 10) in
    if ltb n 10 then (48 + n) ∷ [] else rest ++ (48 + n % 10) ∷ []

-- A number below 2^64 has at most twenty.
unfoldable pub decimal : ℕ → Text
unfolding digits
decimal n = digits 20 n
