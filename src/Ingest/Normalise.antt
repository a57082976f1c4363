-- ===== src/Ingest/Normalise.antt =====
-- ingest/normalise.py: the fields of a row as typed values, or every defect of it.
use ledger_exception_control.Common.{
  ℕ, zero, suc, none, some, Option, Bool, List, [], ◌∷◌, ◌++◌, ◌-◌, ◌==◌, ◌||◌, ◌&&◌, leb, ltb,
  length, any, not, if◌then◌else◌, false, true, ◌⊎◌, inr, inl,
}
use ledger_exception_control.Common.Int.{pos, negate}
use ledger_exception_control.Common.Text.{Text, codes, is_blank}
use ledger_exception_control.Common.Date.{Date}
use ledger_exception_control.Money.Decimal.{
  Decimal, finite, within_money_scale, below_magnitude_bound, is_zero,
}
use ledger_exception_control.Money.Policy.{is_digit, is_currency}
use ledger_exception_control.Ingest.Defect.{
  Defect, QuarantineCode, missing_required_field, field_too_long, unstorable_character,
  invalid_amount, amount_precision_exceeded, amount_out_of_range, invalid_currency, invalid_fx_rate,
}

abbrev pub max_psp_reference : ℕ
max_psp_reference = 128

abbrev pub max_merchant_reference : ℕ
max_merchant_reference = 128

abbrev pub max_transaction_type : ℕ
max_transaction_type = 64

-- A character of `_UNSTORABLE`.
abbrev pub is_unstorable : ℕ → Bool
is_unstorable c = leb c 31 || c == 127

pub record NormalisedLine : Type 0 where
  pub line_number : ℕ
  pub psp_reference : Text
  pub merchant_reference : Option Text
  pub amount : Decimal
  pub currency : Text
  pub value_date : Date
  pub transaction_type : Option Text
  pub presentment_amount : Option Decimal
  pub presentment_currency : Option Text
  pub fx_rate : Option Decimal
  pub memo : Option Text

abbrev pub defect_at : ℕ → Text → QuarantineCode → Defect
defect_at line column code = record { line = some line; column = some column; code = code }

-- The digits of a text that consists of some, and what follows them.
abbrev pub cons_digit : ℕ → List ℕ × Text → List ℕ × Text
cons_digit d (ds, rest) = (d ∷ ds, rest)

unfoldable pub span_digits : Text → List ℕ × Text
span_digits [] = ([], [])
span_digits (c ∷ cs) = if is_digit c then cons_digit (c - b'0') (span_digits cs) else ([], c ∷ cs)

-- The coefficient of a `Decimal` has no leading zeros, and one digit at least.
unfoldable pub strip_zeros : List ℕ → List ℕ
strip_zeros [] = 0 ∷ []
strip_zeros (d ∷ []) = d ∷ []
strip_zeros (zero ∷ e ∷ ds) = strip_zeros (e ∷ ds)
strip_zeros (suc d ∷ e ∷ ds) = suc d ∷ e ∷ ds

abbrev pub decimal_of : Bool → List ℕ → List ℕ → Decimal
decimal_of sign whole fraction =
    finite sign (strip_zeros (whole ++ fraction)) (negate (pos (length fraction)))

-- `(\.[0-9]+)?$` behind the whole part, of one digit at least.
abbrev pub with_fraction : Bool → List ℕ → List ℕ × Text → Option Decimal
with_fraction sign whole ([], rest) = none
with_fraction sign whole (f ∷ fs, []) = some (decimal_of sign whole (f ∷ fs))
with_fraction sign whole (f ∷ fs, c ∷ rest) = none

unfoldable pub with_whole : Bool → List ℕ × Text → Option Decimal
unfolding span_digits strip_zeros
with_whole sign ([], rest) = none
with_whole sign (d ∷ ds, []) = some (decimal_of sign (d ∷ ds) [])
with_whole sign (d ∷ ds, c ∷ rest) =
    if c == b'.' then with_fraction sign (d ∷ ds) (span_digits rest) else none

-- `decimal.Decimal(text)` of a text that `_DECIMAL_TEXT` admits, and `none` of any other.
unfoldable pub read_decimal : Text → Option Decimal
unfolding with_whole span_digits
read_decimal [] = none
read_decimal (c ∷ cs) =
    if c == b'-' then with_whole true (span_digits cs) else with_whole false (span_digits (c ∷ cs))

-- `_money`, from the value on: the value, or the code of the defect.
abbrev pub money_value : Option Decimal → Decimal ⊎ QuarantineCode
money_value none = inr invalid_amount
money_value (some value) =
    if not (within_money_scale value)
    then inr amount_precision_exceeded
    else if not (below_magnitude_bound value)
    then inr amount_out_of_range
    else inl value

-- `_money`
unfoldable pub read_money : Text → Decimal ⊎ QuarantineCode
unfolding read_decimal
read_money text = money_value (read_decimal text)

-- `fx_rate <= 0`
abbrev pub is_positive : Decimal → Bool
is_positive (finite sign ds exponent) = not sign && not (is_zero (finite sign ds exponent))
is_positive other = false

abbrev pub rate_value : Option Decimal → Decimal ⊎ QuarantineCode
rate_value none = inr invalid_fx_rate
rate_value (some rate) = if is_positive rate then inl rate else inr invalid_fx_rate

abbrev pub value_of {ℓ} : {A : Type ℓ} → A ⊎ QuarantineCode → Option A
value_of (inl a) = some a
value_of (inr code) = none

abbrev pub defects_of {ℓ} : {A : Type ℓ} → ℕ → Text → A ⊎ QuarantineCode → List Defect
defects_of line column (inl a) = []
defects_of line column (inr code) = defect_at line column code ∷ []

-- The two tests of a text that the file supplies.
abbrev pub storable_defects : ℕ → Text → ℕ → Text → List Defect
storable_defects line column bound text =
    if ltb bound (length text)
    then defect_at line column field_too_long ∷ []
    else if any is_unstorable text
    then defect_at line column unstorable_character ∷ []
    else []

-- A text that may be absent: nothing is tested of one that is.
abbrev pub optional_text : Text → Option Text
optional_text text = if is_blank text then none else some text

unfoldable pub optional_defects : ℕ → Text → ℕ → Text → List Defect
optional_defects line column bound text =
    if is_blank text then [] else storable_defects line column bound text

unfoldable pub reference_defects : ℕ → Text → List Defect
reference_defects line text =
    if is_blank text
    then defect_at line (codes "psp_reference") missing_required_field ∷ []
    else storable_defects line (codes "psp_reference") max_psp_reference text

unfoldable pub currency_defects : ℕ → Text → Text → List Defect
unfolding is_currency
currency_defects line column text =
    if not (is_currency text) then defect_at line column invalid_currency ∷ [] else []
