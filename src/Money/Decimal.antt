-- ===== src/Money/Decimal.antt =====
-- db/base.py and `_within_money_contract` of money/calculator.py, over Python's `decimal.Decimal` as
-- `as_tuple` gives it: a sign, the digits of the coefficient from the left, and an exponent.
use ledger_exception_control.Common.{
  List, ℕ, false, Bool, length, suc, ◌==◌, ◌∷◌, true, if◌then◌else◌, not, zero, ◌-◌, [], ◌*◌, ltb,
  ◌||◌, ◌+◌, ◌^◌, all,
}
use ledger_exception_control.Common.Int.{negate, pos, ℤ, ◌-ℤ◌, leb_ℤ, negsuc, magnitude}

pub data Decimal : Type 0 where
  finite : Bool → List ℕ → ℤ → Decimal
  nan signaling_nan infinity : Decimal

abbrev pub money_max_scale : ℕ
money_max_scale = 4

abbrev pub money_max_integer_digits : ℕ
money_max_integer_digits = 16

-- `Decimal(1).scaleb(-4)`
abbrev pub money_quantum : Decimal
money_quantum = finite false (1 ∷ []) (negsuc 3)

-- The number that the digits spell, after those already read.
unfoldable pub coefficient_from : ℕ → List ℕ → ℕ
coefficient_from acc [] = acc
coefficient_from acc (d ∷ ds) = coefficient_from (10 * acc + d) ds

unfoldable pub coefficient : List ℕ → ℕ
unfolding coefficient_from
coefficient ds = coefficient_from 0 ds

abbrev pub drop : ℕ → List ℕ → List ℕ
drop zero xs = xs
drop (suc n) [] = []
drop (suc n) (x ∷ xs) = drop n xs

-- `digits[-n:]`, for an `n` that is not zero: all of them if there are fewer.
abbrev pub last_digits : ℕ → List ℕ → List ℕ
last_digits n ds = drop (length ds - n) ds

-- The test on `excess = -exponent - 4`.
abbrev pub scale_test : List ℕ → ℤ → Bool
scale_test ds excess = leb_ℤ excess (pos 0) || all (λ d. d == 0) (last_digits (magnitude excess) ds)

unfoldable pub within_money_scale : Decimal → Bool
unfolding negate ◌-ℤ◌
within_money_scale (finite sign ds exponent) =
    scale_test ds (negate exponent -ℤ pos money_max_scale)
within_money_scale nan = false
within_money_scale signaling_nan = false
within_money_scale infinity = false

-- `amount == 0`, of which Python makes a raised `InvalidOperation` for a signaling NaN: see the
-- calculator.
unfoldable pub is_zero : Decimal → Bool
unfolding coefficient
is_zero (finite sign ds exponent) = coefficient ds == 0
is_zero nan = false
is_zero signaling_nan = false
is_zero infinity = false

abbrev pub is_signaling : Decimal → Bool
is_signaling signaling_nan = true
is_signaling _ = false

-- `amount.copy_abs() < 10 ** 16`, which Python decides exactly.
unfoldable pub below_magnitude_bound : Decimal → Bool
unfolding coefficient
below_magnitude_bound (finite sign ds (pos n)) =
    ltb (coefficient ds * 10 ^ n) (10 ^ money_max_integer_digits)
below_magnitude_bound (finite sign ds (negsuc n)) =
    ltb (coefficient ds) (10 ^ money_max_integer_digits * 10 ^ suc n)
below_magnitude_bound nan = false
below_magnitude_bound signaling_nan = false
below_magnitude_bound infinity = false

abbrev pub is_special : Decimal → Bool
is_special (finite sign ds exponent) = false
is_special nan = true
is_special signaling_nan = true
is_special infinity = true

unfoldable pub within_money_contract : Decimal → Bool
unfolding within_money_scale below_magnitude_bound
within_money_contract amount =
    if is_special amount
    then false
    else if not (within_money_scale amount)
    then false
    else below_magnitude_bound amount
