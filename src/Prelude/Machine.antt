-- ===== src/Prelude/Machine.antt =====
-- Go's int64 and float64. An int64 is the integer that it stands for, and arithmetic that may leave
-- the range is wrapped. Of a float64 the program mostly compares: a number that is not NaN is its
-- rank, the integer that its bits spell (negated, without the sign, below zero), since the order of
-- floats is the order of ranks; both zeros have rank 0.
use skyscale.Prelude.Int.{ℤ, pos, negsuc, ltb_ℤ, pos_part, neg_part}
use skyscale.Prelude.Tests.{ltb, leb, if◌then◌else◌}
use Prim.Native.Nat.{ℕ, ◌+◌, ◌-◌, ◌%◌, ◌^◌, ◌<◌, ◌≤◌}
use mathlib.Core.Bool.{Bool, false}
use mathlib.Core.Path.{◌≡◌}
use native.Mathlib.Omega.{arith}

abbrev signed : ℕ → ℤ
signed r = if ltb r (2 ^ 63) then pos r else negsuc (2 ^ 64 - 1 - r)

-- The int64 with the low 64 bits of an integer.
unfoldable pub wrap64 : ℤ → ℤ
wrap64 (pos n) = signed (n % 2 ^ 64)
wrap64 (negsuc n) = signed (2 ^ 64 - 1 - n % 2 ^ 64)

-- An integer that an int64 holds.
pub record InInt64 (z : ℤ) : Type 0 where
  pub below : pos_part z < 2 ^ 63
  pub above : neg_part z ≤ 2 ^ 63

pub wrap64-eq : (z : ℤ) → InInt64 z → wrap64 z ≡ z
unfolding wrap64
wrap64-eq (pos n) h = ground (arith, h.below)
wrap64-eq (negsuc n) h = ground (arith, h.above)

pub data Float64 : Type 0 where
  nan : Float64
  rank : ℤ → Float64

-- math.Inf(1), math.Inf(-1), and literals by their bits.
abbrev pub infinity : Float64
infinity = rank (pos 0x7ff0000000000000)

abbrev pub minus_infinity : Float64
minus_infinity = rank (negsuc (0x7ff0000000000000 - 1))

abbrev pub float_zero : Float64
float_zero = rank (pos 0)

abbrev pub float_one : Float64
float_one = rank (pos 0x3ff0000000000000)

abbrev pub float_two : Float64
float_two = rank (pos 0x4000000000000000)

abbrev pub float_tenth : Float64
float_tenth = rank (pos 0x3fb999999999999a)

abbrev pub float_thirty : Float64
float_thirty = rank (pos 0x403e000000000000)

-- x < y and x <= y, false on NaN.
abbrev pub float_lt : Float64 → Float64 → Bool
float_lt nan y = false
float_lt (rank a) nan = false
float_lt (rank a) (rank b) = ltb_ℤ a b

abbrev pub float_le : Float64 → Float64 → Bool
float_le nan y = false
float_le (rank a) nan = false
float_le (rank a) (rank b) = leb (pos_part a + neg_part b) (pos_part b + neg_part a)

abbrev is_infinity : Float64 → Bool
is_infinity nan = false
is_infinity (rank a) = leb 0x7ff0000000000000 (pos_part a)

abbrev is_minus_infinity : Float64 → Bool
is_minus_infinity nan = false
is_minus_infinity (rank a) = leb 0x7ff0000000000000 (neg_part a)

-- math.Max of numbers that may be NaN: +Inf wins over NaN.
abbrev max_finite : Float64 → Float64 → Float64
max_finite nan y = nan
max_finite (rank a) nan = nan
max_finite (rank a) (rank b) = if ltb_ℤ b a then rank a else rank b

unfoldable pub float_max : Float64 → Float64 → Float64
float_max x y =
    if is_infinity x then infinity else if is_infinity y then infinity else max_finite x y

abbrev min_finite : Float64 → Float64 → Float64
min_finite nan y = nan
min_finite (rank a) nan = nan
min_finite (rank a) (rank b) = if ltb_ℤ a b then rank a else rank b

-- math.Min: -Inf wins over NaN.
unfoldable pub float_min : Float64 → Float64 → Float64
float_min x y =
    if is_minus_infinity x
    then minus_infinity
    else if is_minus_infinity y
    then minus_infinity
    else min_finite x y
