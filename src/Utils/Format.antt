-- ===== src/Utils/Format.antt =====
-- The decimal form of a number, as `fmt.Sprintf("%d")` writes it.
use ship_status_dash.Base.{
  ℕ, zero, suc, ◌+◌, ◌/◌, ◌%◌, String, ◌<>◌, ◌==◌, nat_eq, ltb, if◌then◌else◌,
}

abbrev digit : ℕ → String
digit n =
    if n == 0
    then "0"
    else if n == 1
    then "1"
    else if n == 2
    then "2"
    else if n == 3
    then "3"
    else if n == 4
    then "4"
    else if n == 5
    then "5"
    else if n == 6
    then "6"
    else if n == 7
    then "7"
    else if n == 8
    then "8"
    else "9"

-- `n + 1` rounds are enough, since a number has fewer digits.
decimal_rounds : ℕ → ℕ → String
decimal_rounds zero n = ""
decimal_rounds (suc f) n =
    let front = decimal_rounds f (n / 10) in if ltb n 10 then digit n else front <> digit (n % 10)

unfoldable pub decimal : ℕ → String
unfolding decimal_rounds
decimal n = decimal_rounds (n + 1) n
