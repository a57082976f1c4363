-- ===== src/Ingest/Storable.antt =====
-- ingest/normalise.py: that what `normalise` accepts can be stored, field by field.
use ledger_exception_control.Common.{
  none, some, Option, List, [], ◌∷◌, ◌≡◌, true, arith, refl, not, is_some, ◌∙◌, ap, sym, ◌<◌, Bool,
  false, if◌then◌else◌,
}
use ledger_exception_control.Common.Text.{codes, is_blank, Text}
use ledger_exception_control.Money.Decimal.{Decimal, within_money_contract}
use ledger_exception_control.Ingest.Defect.{Defect}
use ledger_exception_control.Ingest.Parser.{ParsedRow}
use ledger_exception_control.Ingest.Normalise.{
  value_of, NormalisedLine, is_positive, read_money, read_decimal, optional_text,
}
use ledger_exception_control.Money.Policy.{is_currency}
use ledger_exception_control.Ingest.Row.{
  is_calendar_date, read_date, dated, normalise, Normalised, row_defects, unless_refused,
  asserted_line, line_of, read_rate,
}
use ledger_exception_control.Common.Date.{Date}
use mathlib.Core.Path.{subst}
use ledger_exception_control.Ingest.Readings.{
  append-nil_parts, IsStorableText, presentment-holds, WhereSome, reference-storable,
  optional-storable, money-exact, currency-holds, read_date-calendar,
}

-- What the columns of a settlement line hold.
pub record IsStorable (l : NormalisedLine) : Type 0 where
  pub numbered : 0 < l.line_number
  pub reference : IsStorableText 128 l.psp_reference
  pub merchant : WhereSome (IsStorableText 128) l.merchant_reference
  pub movement : WhereSome (IsStorableText 64) l.transaction_type
  pub exact : within_money_contract l.amount ≡ true
  pub unit : is_currency l.currency ≡ true
  pub dated : is_calendar_date l.value_date ≡ true
  pub presented : WhereSome (λ a. within_money_contract a ≡ true) l.presentment_amount
  pub presented_unit : WhereSome (λ c. is_currency c ≡ true) l.presentment_currency
  pub paired : is_some l.presentment_amount ≡ is_some l.presentment_currency
  pub rate : WhereSome (λ r. is_positive r ≡ true) l.fx_rate
  pub converted : is_some l.fx_rate ≡ true → is_some l.presentment_currency ≡ true

-- What holds of the line of a row without defects.
IsStorable-line :
    (row : ParsedRow) (amount : Decimal) (date : Date)
    → 0 < row.line
    → row_defects row.line row.fields ≡ []
    → value_of (read_money row.fields.amount) ≡ some amount
    → read_date row.fields.value_date ≡ some date
    → IsStorable (line_of row amount date)
unfolding row_defects
IsStorable-line row amount date n h m t =
    let f = row.fields in
    let (h1, presented) = append-nil_parts _ _ h in
    let (h2, dated) = append-nil_parts _ _ h1 in
    let (h3, unit) = append-nil_parts _ _ h2 in
    let (h4, money) = append-nil_parts _ _ h3 in
    let (h5, movement) = append-nil_parts _ _ h4 in
    let (reference, merchant) = append-nil_parts _ _ h5 in
    let (coherent, paid, currency, rate) = presentment-holds row.line f presented in
    record {
      numbered = n;
      reference = reference-storable row.line f.psp_reference reference;
      merchant =
          optional-storable row.line (codes "merchant_reference") 128 f.merchant_reference merchant;
      movement =
          optional-storable row.line (codes "transaction_type") 64 f.transaction_type movement;
      exact = money-exact (read_decimal f.amount) amount m;
      unit = currency-holds row.line (codes "currency") f.currency unit;
      dated = read_date-calendar f.value_date date t;
      presented = paid.0;
      presented_unit = currency.0;
      paired = paid.1 ∙ ap not coherent.0 ∙ sym currency.1;
      rate = rate.0;
      converted = λ e. ground (arith, e, rate.1, currency.1, coherent.1);
    }

-- A field that may be absent, as it is read of its column: none where the column is blank, and else
-- what the text is read as.
abbrev pub IsRead : {A : Type 0} → Text → (Text → Option A) → Option A → Type 0
IsRead {A} text read o =
    (is_blank text ≡ true → o ≡ none)
    × (is_blank text ≡ false → (a : A) × (o ≡ some a) × (read text ≡ some a))

-- What a line has of its row, column by column.
pub record Carries (row : ParsedRow) (l : NormalisedLine) : Type 0 where
  pub number : l.line_number ≡ row.line
  pub reference : l.psp_reference ≡ row.fields.psp_reference
  pub merchant : IsRead row.fields.merchant_reference some l.merchant_reference
  pub amount : value_of (read_money row.fields.amount) ≡ some l.amount
  pub currency : l.currency ≡ row.fields.currency
  pub date : read_date row.fields.value_date ≡ some l.value_date
  pub movement : IsRead row.fields.transaction_type some l.transaction_type
  pub presented :
      IsRead row.fields.presentment_amount (λ t. value_of (read_money t)) l.presentment_amount
  pub presented_unit : IsRead row.fields.presentment_currency some l.presentment_currency
  pub rate : IsRead row.fields.fx_rate (λ t. value_of (read_rate t)) l.fx_rate
  pub memo : IsRead row.fields.memo some l.memo

IsRead-value :
    {A : Type 0} (b : Bool) (o : Option A)
    → is_some (if b then none else o) ≡ not b
    → (b ≡ true → (if b then none else o) ≡ none)
      × (b ≡ false → (a : A) × ((if b then none else o) ≡ some a) × (o ≡ some a))
IsRead-value true o h = (λ e. refl, λ e. absurd (cc (e)))
IsRead-value false none h = absurd (cc (h))
IsRead-value false (some a) h = (λ e. absurd (cc (e)), λ e. (a, refl, refl))

IsRead-text : (t : Text) → IsRead t some (optional_text t)
IsRead-text t = go (is_blank t)
  where
    go :
        (b : Bool)
        → (b ≡ true → (if b then none else some t) ≡ none)
          × (b ≡ false → (a : Text) × ((if b then none else some t) ≡ some a) × (some t ≡ some a))
    go true = (λ e. refl, λ e. absurd (cc (e)))
    go false = (λ e. absurd (cc (e)), λ e. (t, refl, refl))

Carries-line :
    (row : ParsedRow) (amount : Decimal) (date : Date)
    → row_defects row.line row.fields ≡ []
    → value_of (read_money row.fields.amount) ≡ some amount
    → read_date row.fields.value_date ≡ some date
    → Carries row (line_of row amount date)
unfolding row_defects
Carries-line row amount date h m t =
    let f = row.fields in
    let (h1, presented) = append-nil_parts _ _ h in
    let (coherent, paid, currency, rate) = presentment-holds row.line f presented in
    record {
      number = refl;
      reference = refl;
      merchant = IsRead-text f.merchant_reference;
      amount = m;
      currency = refl;
      date = t;
      movement = IsRead-text f.transaction_type;
      presented =
          IsRead-value (is_blank f.presentment_amount) (value_of (read_money f.presentment_amount))
            paid.1;
      presented_unit = IsRead-text f.presentment_currency;
      rate = IsRead-value (is_blank f.fx_rate) (value_of (read_rate f.fx_rate)) rate.1;
      memo = IsRead-text f.memo;
    }

-- Of a row with a positive number, a line that `normalise` gives can be stored: its number is
-- positive, its reference, of at most 128 characters, and its movement type, of at most 64, are not
-- blank and hold no control character, its amounts meet the money contract, its currencies are three
-- capital letters, its date is one of the calendar, an amount presented stands beside its currency,
-- and a rate is positive and has such a currency. And it carries what its row says: the number, the
-- reference and the currency as they stand, the amount and the date as they are read, and of every
-- column that may be blank nothing where it is, and else its text, or the number that is read of it.
pub normalise-IsStorable :
    (row : ParsedRow) (l : NormalisedLine)
    → 0 < row.line
    → normalise row ≡ Normalised.line l
    → IsStorable l × Carries row l
unfolding normalise
normalise-IsStorable row l n h =
    go (row_defects row.line row.fields) (value_of (read_money row.fields.amount))
      (read_date row.fields.value_date) refl refl refl h
  where
    Kept : NormalisedLine → Type 0
    Kept x = IsStorable x × Carries row x

    go :
        (ds : List Defect) (amount : Option Decimal) (date : Option Date)
        → row_defects row.line row.fields ≡ ds
        → value_of (read_money row.fields.amount) ≡ amount
        → read_date row.fields.value_date ≡ date
        → unless_refused ds (asserted_line row amount date) ≡ Normalised.line l
        → Kept l
    go (d ∷ ds) amount date e m t k = absurd (cc (k))
    go [] none date e m t k = absurd (cc (k))
    go [] (some a) none e m t k = absurd (cc (k))
    go [] (some a) (some d) e m t k =
        subst Kept (cc (k)) (IsStorable-line row a d n e m t, Carries-line row a d e m t)
