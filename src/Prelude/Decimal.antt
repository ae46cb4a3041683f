-- ===== src/Prelude/Decimal.antt =====
-- Decimal numerals: `strconv.Atoi` and `%03d`.
use Prim.Native.Char.{code}
use Prim.Native.String.{[], ◌∷◌, ◌++◌}
use skyscale.Prelude.{
  ℕ, zero, suc, ◌+◌, ◌-◌, ◌*◌, ◌/◌, ◌%◌, ◌^◌, String, ◌&&◌, Option, none, some, ltb, leb, eqb,
  if◌then◌else◌,
}
use skyscale.Prelude.Int.{ℤ, pos, negsuc}

digit : ℕ → String
digit n =
    if eqb n 0
    then "0"
    else if eqb n 1
    then "1"
    else if eqb n 2
    then "2"
    else if eqb n 3
    then "3"
    else if eqb n 4
    then "4"
    else if eqb n 5
    then "5"
    else if eqb n 6
    then "6"
    else if eqb n 7
    then "7"
    else if eqb n 8
    then "8"
    else "9"

-- The fuel is the number itself, which has more than its digits.
numeral : ℕ → ℕ → String
unfolding digit
numeral zero n = digit (n % 10)
numeral (suc fuel) n =
    let front = numeral fuel (n / 10) in if ltb n 10 then digit n else front ++ digit (n % 10)

unfoldable pub decimal : ℕ → String
unfolding numeral
decimal n = numeral n n

-- fmt.Sprintf("%03d", n)
unfoldable pub pad3 : ℕ → String
pad3 n = if ltb n 10 then "00" ++ decimal n else if ltb n 100 then "0" ++ decimal n else decimal n

digits_from : ℕ → String → Option ℕ
digits_from acc [] = some acc
digits_from acc (c ∷ s) =
    let rest = digits_from (acc * 10 + (code c - 48)) s in
    if leb 48 (code c) && leb (code c) 57 then rest else none

-- One digit or more.
digits : String → Option ℕ
unfolding digits_from
digits [] = none
digits (c ∷ s) = digits_from 0 (c ∷ s)

in_int : Option ℕ → Option ℤ
in_int none = none
in_int (some n) = if ltb n (2 ^ 63) then some (pos n) else none

negated : Option ℕ → Option ℤ
negated none = none
negated (some zero) = some (pos 0)
negated (some (suc n)) = if ltb n (2 ^ 63) then some (negsuc n) else none

-- strconv.Atoi: an optional sign and decimal digits, of a number that an int64 holds.
unfoldable pub atoi : String → Option ℤ
unfolding digits in_int negated
atoi [] = none
atoi (c ∷ s) =
    if eqb (code c) 45
    then negated (digits s)
    else if eqb (code c) 43
    then in_int (digits s)
    else in_int (digits (c ∷ s))
