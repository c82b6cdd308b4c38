-- ===== src/Base/Whitespace.antt =====
-- `str::trim`, `str::lines` and `str::split_once` on the UTF-8 bytes of a text.
use Prim.Native.Nat.{ℕ, zero, suc}
use mathlib.Core.Bool.{◌&&◌}
use mathlib.Core.Option.{Option, none, some}
use mathlib.Core.List.{List, [], ◌∷◌, ◌++◌, map}
use lumen.Base.Tests.{◌==◌, if◌then◌else◌}
use lumen.Base.Lists.{length}
use lumen.Base.Strings.{Text}

-- The characters with Unicode's property White_Space.
abbrev white_space : List Text
white_space =
    (9 ∷ [])
    ∷ (10 ∷ [])
    ∷ (11 ∷ [])
    ∷ (12 ∷ [])
    ∷ (13 ∷ [])
    ∷ (32 ∷ [])
    ∷ (0xc2 ∷ 0x85 ∷ [])
    ∷ (0xc2 ∷ 0xa0 ∷ [])
    ∷ (0xe1 ∷ 0x9a ∷ 0x80 ∷ [])
    ∷ (0xe2 ∷ 0x80 ∷ 0x80 ∷ [])
    ∷ (0xe2 ∷ 0x80 ∷ 0x81 ∷ [])
    ∷ (0xe2 ∷ 0x80 ∷ 0x82 ∷ [])
    ∷ (0xe2 ∷ 0x80 ∷ 0x83 ∷ [])
    ∷ (0xe2 ∷ 0x80 ∷ 0x84 ∷ [])
    ∷ (0xe2 ∷ 0x80 ∷ 0x85 ∷ [])
    ∷ (0xe2 ∷ 0x80 ∷ 0x86 ∷ [])
    ∷ (0xe2 ∷ 0x80 ∷ 0x87 ∷ [])
    ∷ (0xe2 ∷ 0x80 ∷ 0x88 ∷ [])
    ∷ (0xe2 ∷ 0x80 ∷ 0x89 ∷ [])
    ∷ (0xe2 ∷ 0x80 ∷ 0x8a ∷ [])
    ∷ (0xe2 ∷ 0x80 ∷ 0xa8 ∷ [])
    ∷ (0xe2 ∷ 0x80 ∷ 0xa9 ∷ [])
    ∷ (0xe2 ∷ 0x80 ∷ 0xaf ∷ [])
    ∷ (0xe2 ∷ 0x81 ∷ 0x9f ∷ [])
    ∷ (0xe3 ∷ 0x80 ∷ 0x80 ∷ [])
    ∷ []

abbrev reverse : Text → Text
reverse [] = []
reverse (c ∷ cs) = reverse cs ++ c ∷ []

unfoldable pub strip_prefix : Text → Text → Option Text
strip_prefix [] t = some t
strip_prefix (c ∷ cs) [] = none
strip_prefix (c ∷ cs) (d ∷ ds) = if c == d then strip_prefix cs ds else none

-- What is left after the first of the prefixes that the text has.
abbrev strip_first : List Text → Text → Option Text
unfolding strip_prefix
strip_first [] t = none
strip_first (p ∷ ps) t = elim (strip_prefix p t) [ some rest ↦ some rest | none ↦ strip_first ps t ]

-- Strips prefixes while there are any, at most as often as the text has bytes.
abbrev strip_all : ℕ → List Text → Text → Text
unfolding strip_prefix
strip_all zero ps t = t
strip_all (suc n) ps t = elim (strip_first ps t) [ none ↦ t | some rest ↦ strip_all n ps rest ]

unfoldable pub trim : Text → Text
unfolding strip_prefix
trim t =
    let left = strip_all (length t) white_space t in
    reverse (strip_all (length left) (map reverse white_space) (reverse left))

abbrev cons_first : ℕ → List Text → List Text
cons_first c [] = (c ∷ []) ∷ []
cons_first c (l ∷ ls) = (c ∷ l) ∷ ls

-- The text cut at each `\n` and `\r\n`, with what follows the last one if that is not empty.
unfoldable pub lines : Text → List Text
lines [] = []
lines (c ∷ []) = if c == 10 then [] ∷ [] else (c ∷ []) ∷ []
lines (c ∷ d ∷ cs) =
    let here = lines (d ∷ cs) in
    let later = lines cs in
    if c == 10 then [] ∷ here else if c == 13 && d == 10 then [] ∷ later else cons_first c here

unfoldable pub split_once : ℕ → Text → Option (Text × Text)
split_once sep [] = none
split_once sep (c ∷ cs) =
    let rest = split_once sep cs in
    if c == sep
    then some ([], cs)
    else elim rest [ none ↦ none | some halves ↦ some (c ∷ halves.0, halves.1) ]
