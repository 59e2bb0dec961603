-- ===== src/Text/Decimal.antt =====
-- The decimal digits of a number, as `format!("{}", n)` prints an integer.
use Prim.Native.Char.{Char}
use Prim.Native.String
use ruststack.Prelude.{ℕ, zero, suc, ◌/◌, ◌%◌, String, eqb, if◌then◌else◌}
use ruststack.Prelude.Int.{ℤ, pos, negsuc}

abbrev digit : ℕ → Char
digit n =
    if eqb n 0
    then "0"
    else if eqb n 1
    then "1"
    else if eqb n 2
    then "2"
    else if eqb n 3
    then "3"
    else if eqb n 4
    then "4"
    else if eqb n 5
    then "5"
    else if eqb n 6
    then "6"
    else if eqb n 7
    then "7"
    else if eqb n 8
    then "8"
    else "9"

decimal_from : ℕ → ℕ → String → String
decimal_from zero n acc = acc
decimal_from (suc fuel) n acc =
    let more = decimal_from fuel (n / 10) (String.◌∷◌ (digit (n % 10)) acc) in
    if eqb n 0 then acc else more

-- Twenty digits are enough for 64 bits.
unfoldable pub decimal : ℕ → String
unfolding decimal_from
decimal n = if eqb n 0 then "0" else decimal_from 20 n String.[]

unfoldable pub decimal_int : ℤ → String
unfolding decimal
decimal_int (pos n) = decimal n
decimal_int (negsuc n) = String.◌++◌ "-" (decimal (suc n))
