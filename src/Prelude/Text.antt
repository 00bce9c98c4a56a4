-- ===== src/Prelude/Text.antt =====
-- The bytes of the texts that the source writes out, and numbers printed in them.
use Prim.Native.Char.{code}
use Prim.Native.String.{String}
use Prim.Native.Nat.{ℕ, zero, suc, ◌+◌, ◌-◌, ◌/◌, ◌%◌, ◌^◌}
use mathlib.Core.List.{List, [], ◌∷◌}
use kunlun.Prelude.Tests.{ltb, if◌then◌else◌}

abbrev pub codes : String → List ℕ
codes String.[] = []
codes (String.◌∷◌ c s) = code c ∷ codes s

-- The decimal digits of a number in front of a text, `n` digits at most.
pub decimal_digits : ℕ → ℕ → List ℕ → List ℕ
decimal_digits zero value text = text
decimal_digits (suc n) value text =
    let rest = decimal_digits n (value / 10) ((48 + value % 10) ∷ text) in
    if ltb value 10 then (48 + value) ∷ text else rest

-- %d of an int, a bit pattern; it has ten digits at most.
unfoldable pub decimal : ℕ → List ℕ
unfolding decimal_digits
decimal value =
    if ltb value (2 ^ 31)
    then decimal_digits 10 value []
    else 45 ∷ decimal_digits 10 (2 ^ 32 - value) []
