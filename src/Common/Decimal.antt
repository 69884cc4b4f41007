-- ===== src/Common/Decimal.antt =====
-- `str(n)` of a number that is not negative.
use Prim.Native.Nat.{ℕ, zero, suc, ◌/◌, ◌%◌}
use Prim.Native.String.{String, ◌++◌ as ◌<>◌}
use mathlib.Core.Path.{◌≡◌, refl}
use tunstrap.Common.Tests.{◌==◌, ltb, if◌then◌else◌}

digit : ℕ → String
digit n =
    if n == 0
    then "0"
    else if n == 1
    then "1"
    else if n == 2
    then "2"
    else if n == 3
    then "3"
    else if n == 4
    then "4"
    else if n == 5
    then "5"
    else if n == 6
    then "6"
    else if n == 7
    then "7"
    else if n == 8
    then "8"
    else "9"

-- One digit a round, so `suc n` rounds are enough for `n`.
digits : ℕ → ℕ → String
unfolding digit
digits zero n = ""
digits (suc fuel) n =
    let rest = digits fuel (n / 10) in if ltb n 10 then digit n else rest <> digit (n % 10)

unfoldable pub decimal : ℕ → String
unfolding digits
decimal n = digits (suc n) n

decimal_port : decimal 16443 ≡ "16443"
unfolding decimal
decimal_port = refl
