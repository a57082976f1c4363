-- ===== src/Operations/Identity/Amount.antt =====
-- operations/identity.py: `canonical_amount`.
use ledger_exception_control.Common.{
  ℕ, suc, none, some, Option, Bool, List, [], ◌∷◌, ◌++◌, ◌==◌, leb, ◌/◌, ◌%◌, ◌^◌, ◌*◌, ◌+◌, ◌-◌,
  not, if◌then◌else◌,
}
use ledger_exception_control.Money.Decimal.{
  Decimal, finite, coefficient, is_special, within_money_scale, below_magnitude_bound,
  money_max_scale,
}
use ledger_exception_control.Common.Int.{ℤ, pos, negsuc, negate}
use ledger_exception_control.Common.Text.{Text, codes, digits_by}

-- The value in ten-thousandths, without its sign: `unscaled` shifted by `exponent + 4`.
unfoldable pub units : List ℕ → ℤ → ℕ
units ds (pos n) = coefficient ds * 10 ^ (n + money_max_scale)
units ds (negsuc n) =
    if leb (suc n) money_max_scale
    then coefficient ds * 10 ^ (money_max_scale - suc n)
    else coefficient ds / 10 ^ (suc n - money_max_scale)

-- `f"{n:04d}"`, of a number below 10 ^ 4
abbrev pub four_digits : ℕ → Text
four_digits n = (48 + n / 1000 % 10) ∷ (48 + n / 100 % 10) ∷ (48 + n / 10 % 10) ∷ (48 + n % 10) ∷ []

abbrev pub marker : Bool → Text
marker sign = if sign then 45 ∷ [] else []

-- Of a number of units that is not zero.
unfoldable pub amount_text : Bool → ℕ → Text
unfolding digits_by
amount_text sign n =
    marker sign ++ (digits_by (n / 10000) (n / 10000) ++ 46 ∷ four_digits (n % 10000))

-- Of what passes the three tests.
abbrev pub stored_text : Decimal → Option Text
stored_text (finite sign ds exponent) =
    some (if coefficient ds == 0 then codes "0.0000" else amount_text sign (units ds exponent))
stored_text _ = none

-- `canonical_amount`, or `none` where it raises
unfoldable pub canonical_amount : Decimal → Option Text
unfolding units amount_text
canonical_amount amount =
    if is_special amount
    then none
    else if not (within_money_scale amount)
    then none
    else if not (below_magnitude_bound amount)
    then none
    else stored_text amount

-- A reading of such a text, in ten-thousandths.
unfoldable pub read_from : ℕ → Text → ℕ
read_from acc [] = acc
read_from acc (c ∷ cs) = if c == 46 then read_from acc cs else read_from (acc * 10 + (c - 48)) cs

unfoldable pub read_amount : Text → ℤ
unfolding read_from
read_amount [] = pos 0
read_amount (c ∷ cs) = if c == 45 then negate (pos (read_from 0 cs)) else pos (read_from 0 (c ∷ cs))

abbrev pub signed_units : Decimal → ℤ
signed_units (finite sign ds exponent) =
    if sign then negate (pos (units ds exponent)) else pos (units ds exponent)
signed_units _ = pos 0
