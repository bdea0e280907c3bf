-- ===== src/Prelude/Decimal.antt =====
-- Numbers as decimal texts, fmt's %d of a number that is not negative.
pub mod Injective
use famfun.Prelude.{ℕ, zero, suc, ◌/◌, ◌%◌, String, true, false, nat_eq, if◌then◌else◌}
use famfun.Prelude.Text.{◌⧺◌}

digit : ℕ → String
digit n =
    if nat_eq n 0
    then "0"
    else if nat_eq n 1
    then "1"
    else if nat_eq n 2
    then "2"
    else if nat_eq n 3
    then "3"
    else if nat_eq n 4
    then "4"
    else if nat_eq n 5
    then "5"
    else if nat_eq n 6
    then "6"
    else if nat_eq n 7
    then "7"
    else if nat_eq n 8
    then "8"
    else "9"

decimal_go : ℕ → ℕ → String → String
decimal_go zero n text = text
decimal_go (suc fuel) n text =
    let text' = digit (n % 10) ⧺ text in
    elim (nat_eq (n / 10) 0) [ true ↦ text' | false ↦ decimal_go fuel (n / 10) text' ]

-- A number has at most as many digits as its successor.
unfoldable pub decimal : ℕ → String
unfolding decimal_go digit
decimal n = decimal_go (suc n) n ""
