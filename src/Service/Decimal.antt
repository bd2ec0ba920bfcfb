-- ===== src/Service/Decimal.antt =====
-- `str` of a number: its decimal digits. The fuel n + 1 is more than the number of digits of n.
use Prim.Native.String.{◌++◌ as concat}
use pepeuchiacluster.Prelude.{ℕ, zero, suc, ◌/◌, ◌%◌, ◌==◌, ltb, String, if◌then◌else◌}

abbrev digit : ℕ → String
digit d =
    if d == 0
    then "0"
    else if d == 1
    then "1"
    else if d == 2
    then "2"
    else if d == 3
    then "3"
    else if d == 4
    then "4"
    else if d == 5
    then "5"
    else if d == 6
    then "6"
    else if d == 7
    then "7"
    else if d == 8
    then "8"
    else "9"

digits : ℕ → ℕ → String
digits zero n = ""
digits (suc fuel) n =
    let high = digits fuel (n / 10) in if ltb n 10 then digit n else concat high (digit (n % 10))

unfoldable pub decimal : ℕ → String
unfolding digits
decimal n = digits (suc n) n
