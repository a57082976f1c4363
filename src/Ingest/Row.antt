-- ===== src/Ingest/Row.antt =====
-- ingest/normalise.py: `normalise` and `_normalise_presentment`, on the readings of Normalise.
use ledger_exception_control.Common.{
  ℕ, none, some, Option, Bool, List, [], ◌∷◌, ◌++◌, ◌+◌, ◌-◌, ◌*◌, ◌==◌, ◌||◌, ◌&&◌, leb, not,
  if◌then◌else◌, false, true, ◌⊎◌, inr, inl,
}
use ledger_exception_control.Common.Text.{Text, codes, is_blank}
use ledger_exception_control.Common.Date.{Date, is_leap}
use ledger_exception_control.Money.Decimal.{Decimal}
use ledger_exception_control.Money.Policy.{is_digit}
use ledger_exception_control.Ingest.Defect.{
  Defect, QuarantineCode, invalid_date, incoherent_presentment_fields,
}
use ledger_exception_control.Ingest.Parser.{ParsedRow, Fields}
use ledger_exception_control.Ingest.Normalise.{
  NormalisedLine, defect_at, read_money, read_decimal, rate_value, value_of, defects_of,
  optional_text, optional_defects, reference_defects, currency_defects, max_merchant_reference,
  max_transaction_type,
}

abbrev pub days_in_month : ℕ → ℕ → ℕ
days_in_month y m =
    if m == 2
    then (if is_leap y then 29 else 28)
    else if m == 4 || (m == 6 || (m == 9 || m == 11))
    then 30
    else 31

-- What the constructor of `datetime.date` accepts.
unfoldable pub is_calendar_date : Date → Bool
is_calendar_date d =
    leb 1 d.year
    && (leb d.year 9999
        && (leb 1 d.month
            && (leb d.month 12 && (leb 1 d.day && leb d.day (days_in_month d.year d.month)))))

abbrev pub digit_value : ℕ → ℕ
digit_value c = c - b'0'

abbrev pub checked_date : Date → Option Date
checked_date d = if is_calendar_date d then some d else none

-- `_ISO_DATE`, of ten characters.
unfoldable pub is_iso_shape : (a b c d p m n q e f : ℕ) → Bool
is_iso_shape a b c d p m n q e f =
    is_digit a
    && (is_digit b
        && (is_digit c
            && (is_digit d
                && (p == b'-'
                    && (is_digit m && (is_digit n && (q == b'-' && (is_digit e && is_digit f))))))))

abbrev pub spelled_date : (a b c d m n e f : ℕ) → Date
spelled_date a b c d m n e f = record {
  year = digit_value a * 1000 + digit_value b * 100 + digit_value c * 10 + digit_value d;
  month = digit_value m * 10 + digit_value n;
  day = digit_value e * 10 + digit_value f;
}

-- `_ISO_DATE.fullmatch(raw_date)`, and then `dt.date.fromisoformat(raw_date)`.
unfoldable pub read_date : Text → Option Date
unfolding is_calendar_date is_iso_shape
read_date (a ∷ b ∷ c ∷ d ∷ p ∷ m ∷ n ∷ q ∷ e ∷ f ∷ []) =
    if is_iso_shape a b c d p m n q e f then checked_date (spelled_date a b c d m n e f) else none
read_date _ = none

abbrev pub dated : Option Date → Date ⊎ QuarantineCode
dated none = inr invalid_date
dated (some d) = inl d

abbrev pub incoherent : ℕ → Text → Bool → List Defect
incoherent line column wrong =
    if wrong then defect_at line column incoherent_presentment_fields ∷ [] else []

-- `a != b`
abbrev pub differ : Bool → Bool → Bool
differ true b = not b
differ false b = b

-- What is read of a text, and its defects, only if the file supplies it.
abbrev pub supplied {ℓ} : {A : Type ℓ} → Text → (Text → A ⊎ QuarantineCode) → Option A
supplied text read = if is_blank text then none else value_of (read text)

abbrev pub supplied_defects {ℓ} :
    {A : Type ℓ} → ℕ → Text → Text → (Text → A ⊎ QuarantineCode) → List Defect
supplied_defects line column text read =
    if is_blank text then [] else defects_of line column (read text)

abbrev pub read_rate : Text → Decimal ⊎ QuarantineCode
read_rate text = rate_value (read_decimal text)

-- The defects that `_normalise_presentment` appends, in its order.
unfoldable pub presentment_defects : ℕ → Fields → List Defect
unfolding read_money read_decimal currency_defects
presentment_defects line f =
    incoherent line (codes "presentment_amount")
      (differ (not (is_blank f.presentment_amount)) (not (is_blank f.presentment_currency)))
    ++ incoherent line (codes "fx_rate")
        (not (is_blank f.fx_rate) && is_blank f.presentment_currency)
    ++ supplied_defects line (codes "presentment_amount") f.presentment_amount read_money
    ++ (if is_blank f.presentment_currency
        then []
        else currency_defects line (codes "presentment_currency") f.presentment_currency)
    ++ supplied_defects line (codes "fx_rate") f.fx_rate read_rate

-- The defects of a row, in the order in which `normalise` appends them.
unfoldable pub row_defects : ℕ → Fields → List Defect
unfolding presentment_defects reference_defects optional_defects read_date
row_defects line f =
    reference_defects line f.psp_reference
    ++ optional_defects line (codes "merchant_reference") max_merchant_reference
        f.merchant_reference
    ++ optional_defects line (codes "transaction_type") max_transaction_type f.transaction_type
    ++ defects_of line (codes "amount") (read_money f.amount)
    ++ currency_defects line (codes "currency") f.currency
    ++ defects_of line (codes "value_date") (dated (read_date f.value_date))
    ++ presentment_defects line f

-- How `normalise` ends: with a line, with the defects of the row, or by one of its assertions.
pub data Normalised : Type 0 where
  line : NormalisedLine → Normalised
  refused : List Defect → Normalised
  assertion_failed : Normalised

-- The line of a row without defects.
abbrev pub line_of : ParsedRow → Decimal → Date → NormalisedLine
line_of row amount value_date = record {
  line_number = row.line;
  psp_reference = row.fields.psp_reference;
  merchant_reference = optional_text row.fields.merchant_reference;
  amount = amount;
  currency = row.fields.currency;
  value_date = value_date;
  transaction_type = optional_text row.fields.transaction_type;
  presentment_amount = supplied row.fields.presentment_amount read_money;
  presentment_currency = optional_text row.fields.presentment_currency;
  fx_rate = supplied row.fields.fx_rate read_rate;
  memo = optional_text row.fields.memo;
}

-- The two assertions.
abbrev pub asserted_line : ParsedRow → Option Decimal → Option Date → Normalised
asserted_line row none date = assertion_failed
asserted_line row (some amount) none = assertion_failed
asserted_line row (some amount) (some value_date) = line (line_of row amount value_date)

abbrev pub unless_refused : List Defect → Normalised → Normalised
unless_refused [] r = r
unless_refused (d ∷ ds) r = refused (d ∷ ds)

-- `normalise`
unfoldable pub normalise : ParsedRow → Normalised
unfolding row_defects
normalise row =
    unless_refused (row_defects row.line row.fields) (
      asserted_line row (value_of (read_money row.fields.amount)) (read_date row.fields.value_date))
