-- ===== src/Prelude/Decimal.antt =====
-- `{}` of a `usize`: the decimal digits.
use Prim.Native.String.{String}
use guard_cli.Prelude.Tests.{if◌then◌else◌, ltb, ◌==◌, nat_eq}
use guard_cli.Prelude.Text.{◌<>◌}
use Prim.Native.Nat.{ℕ, zero, suc, ◌/◌, ◌%◌}

digit : ℕ → String
digit d =
    if d == 0
    then "0"
    else if d == 1
    then "1"
    else if d == 2
    then "2"
    else if d == 3
    then "3"
    else if d == 4
    then "4"
    else if d == 5
    then "5"
    else if d == 6
    then "6"
    else if d == 7
    then "7"
    else if d == 8
    then "8"
    else "9"

-- one round for each digit; a number has fewer digits than its value plus one
digits : ℕ → ℕ → String
digits zero n = ""
digits (suc fuel) n =
    let more = digits fuel (n / 10) <> digit (n % 10) in if ltb n 10 then digit n else more

unfoldable pub decimal : ℕ → String
unfolding digits digit
decimal n = digits (suc n) n
