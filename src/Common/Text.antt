-- ===== src/Common/Text.antt =====
-- Texts: template literals, decimal and radix printing, slices by characters.
use Prim.Native.Nat.{ℕ, zero, suc, ◌-◌, ◌/◌, ◌%◌}
use Prim.Native.String
use Prim.Native.String.{String, count}
use mathlib.Core.Bool.{Bool, true, false}
use mathlib.Core.List.{List, [], ◌∷◌}
use text.Mathlib.Text.{find?}
use gocourier.Common.Tests.{ltb, is_some, ◌or_else◌}
use gocourier.Common.Lists.{get_elem?}

-- A template literal: its pieces, one after another.
unfoldable pub template : List String → String
template [] = ""
template (s ∷ ss) = String.◌++◌ s (template ss)

-- `parts.join(separator)`.
unfoldable pub join : String → List String → String
join sep [] = ""
join sep (s ∷ []) = s
join sep (s ∷ t ∷ ss) = String.◌++◌ s (String.◌++◌ sep (join sep (t ∷ ss)))

-- `s.slice(0, n)`, by characters.
unfoldable pub take_text : ℕ → String → String
take_text zero s = ""
take_text (suc n) String.[] = ""
take_text (suc n) (String.◌∷◌ c s) = String.◌∷◌ c (take_text n s)

-- `s.slice(n)`, by characters.
unfoldable pub drop_text : ℕ → String → String
drop_text zero s = s
drop_text (suc n) String.[] = ""
drop_text (suc n) (String.◌∷◌ c s) = drop_text n s

-- `s.slice(i, j)` for `i ≤ j`.
unfoldable pub slice_text : ℕ → ℕ → String → String
unfolding take_text drop_text
slice_text i j s = take_text (j - i) (drop_text i s)

-- `s.slice(-n)`: the last `n` characters, or all of them.
unfoldable pub last_text : ℕ → String → String
unfolding drop_text
last_text n s = drop_text (count s - n) s

-- `s.includes(t)`.
abbrev pub includes : String → String → Bool
includes s t = is_some (find? s t)

abbrev pub is_empty : String → Bool
is_empty String.[] = true
is_empty (String.◌∷◌ _ _) = false

-- The digits of `Number.prototype.toString`, up to radix 36.
abbrev pub digits : List String
digits =
    "0" ∷ "1" ∷ "2" ∷ "3" ∷ "4" ∷ "5" ∷ "6" ∷ "7" ∷ "8" ∷ "9" ∷ "a" ∷ "b" ∷ "c" ∷ "d" ∷ "e" ∷ "f"
    ∷ "g" ∷ "h" ∷ "i" ∷ "j" ∷ "k" ∷ "l" ∷ "m" ∷ "n" ∷ "o" ∷ "p" ∷ "q" ∷ "r" ∷ "s" ∷ "t" ∷ "u" ∷ "v"
    ∷ "w" ∷ "x" ∷ "y" ∷ "z" ∷ []

-- The digits of `n` in a radix, before `acc`; the fuel bounds their number.
unfoldable pub radix_from : ℕ → ℕ → ℕ → String → String
radix_from radix zero n acc = acc
radix_from radix (suc fuel) n acc =
    let digit = get_elem? digits (n % radix) or_else "?" in
    let longer = String.◌++◌ digit acc in
    elim (ltb n radix) [ true ↦ longer | false ↦ radix_from radix fuel (n / radix) longer ]

-- `n.toString(radix)`. A number has no more than `n + 1` digits.
unfoldable pub to_radix : ℕ → ℕ → String
unfolding radix_from
to_radix radix n = radix_from radix (suc n) n ""

-- A number in a template literal.
unfoldable pub decimal : ℕ → String
unfolding to_radix
decimal n = to_radix 10 n
