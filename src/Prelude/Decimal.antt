-- ===== src/Prelude/Decimal.antt =====
-- Decimal numerals: Python's `str(n)` of a natural number.
use Prim.Native.Nat.{ℕ, zero, suc, ◌/◌, ◌%◌}
use Prim.Native.Char.{Char}
use Prim.Native.String.{String}
use bunkerweb_mcp.Prelude.Tests.{ltb, eqb, if◌then◌else◌}

unfoldable pub digit_char : ℕ → Char
digit_char n =
    if eqb n 0
    then "0"
    else if eqb n 1
    then "1"
    else if eqb n 2
    then "2"
    else if eqb n 3
    then "3"
    else if eqb n 4
    then "4"
    else if eqb n 5
    then "5"
    else if eqb n 6
    then "6"
    else if eqb n 7
    then "7"
    else if eqb n 8
    then "8"
    else "9"

-- The fuel `n + 1` is more than the number of digits of `n`.
unfoldable pub show_from : ℕ → ℕ → String → String
show_from zero n acc = acc
show_from (suc fuel) n acc =
    let more = show_from fuel (n / 10) (String.◌∷◌ (digit_char (n % 10)) acc) in
    if ltb n 10 then String.◌∷◌ (digit_char n) acc else more

unfoldable pub show : ℕ → String
unfolding show_from digit_char
show n = show_from (suc n) n ""
