-- ===== src/Ingest/Refusals.antt =====
-- ingest/normalise.py and parser.py: that what is refused is refused with defects that name the row,
-- a declared column, and so can be rendered.
use ledger_exception_control.Common.{
  ℕ, none, some, Option, Bool, List, [], ◌∷◌, ◌≡◌, ◌≢◌, true, false, refl, any, All, All-append,
  Bool-cases, inl, inr, ◌⊎◌, if◌then◌else◌, ltb, length, not, ◌&&◌,
}
use ledger_exception_control.Common.Text.{Text, codes, text_eq, is_blank}
use ledger_exception_control.Ingest.Defect.{Defect, QuarantineCode}
use ledger_exception_control.Ingest.Parser.{ParsedRow, Fields, settlement_columns}
use ledger_exception_control.Ingest.Row.{
  presentment_defects, row_defects, incoherent, normalise, supplied_defects, dated, read_rate,
  Normalised, read_date, refused, unless_refused, asserted_line, line_of, differ,
}
use ledger_exception_control.Ingest.Normalise.{
  reference_defects, storable_defects, currency_defects, optional_defects, defects_of,
  NormalisedLine, read_money, is_unstorable, value_of,
}
use ledger_exception_control.Money.Policy.{is_currency}
use ledger_exception_control.Money.Decimal.{Decimal}
use ledger_exception_control.Common.Date.{Date}
use ledger_exception_control.Ingest.Readings.{append-nil_parts}

-- A defect of that row, in one of the columns of the format.
abbrev pub IsLocated : ℕ → Defect → Type 0
IsLocated line d =
    (c : Text) × (any (text_eq c) settlement_columns ≡ true)
    × (d.line ≡ some line)
    × (d.column ≡ some c)

storable-IsLocated :
    (line : ℕ) (column : Text) (bound : ℕ) (t : Text)
    → any (text_eq column) settlement_columns ≡ true
    → All (IsLocated line) (storable_defects line column bound t)
storable-IsLocated line column bound t c = elim (Bool-cases (ltb bound (length t))) [
  | inl long ↦ rw long ((column, c, refl, refl), tt)
  | inr short ↦ elim (Bool-cases (any is_unstorable t)) [
    | inl bad ↦ rw (short, bad) ((column, c, refl, refl), tt)
    | inr good ↦ rw (short, good) tt
  ]
]

reference-IsLocated : (line : ℕ) (t : Text) → All (IsLocated line) (reference_defects line t)
unfolding reference_defects
reference-IsLocated line t = elim (Bool-cases (is_blank t)) [
  | inl blank ↦ rw blank ((codes "psp_reference", refl, refl, refl), tt)
  | inr there ↦ rw there (storable-IsLocated line (codes "psp_reference") 128 t refl)
]

optional-IsLocated :
    (line : ℕ) (column : Text) (bound : ℕ) (t : Text)
    → any (text_eq column) settlement_columns ≡ true
    → All (IsLocated line) (optional_defects line column bound t)
unfolding optional_defects
optional-IsLocated line column bound t c = elim (Bool-cases (is_blank t)) [
  | inl blank ↦ rw blank tt
  | inr there ↦ rw there (storable-IsLocated line column bound t c)
]

currency-IsLocated :
    (line : ℕ) (column t : Text)
    → any (text_eq column) settlement_columns ≡ true
    → All (IsLocated line) (currency_defects line column t)
unfolding currency_defects
currency-IsLocated line column t c = elim (Bool-cases (is_currency t)) [
  | inl good ↦ rw good tt
  | inr bad ↦ rw bad ((column, c, refl, refl), tt)
]

read-IsLocated :
    {A : Type 0} (line : ℕ) (column : Text) (r : A ⊎ QuarantineCode)
    → any (text_eq column) settlement_columns ≡ true
    → All (IsLocated line) (defects_of line column r)
read-IsLocated line column (inl a) c = tt
read-IsLocated line column (inr code) c = ((column, c, refl, refl), tt)

supplied-IsLocated :
    {A : Type 0} (line : ℕ) (column t : Text) (read : Text → A ⊎ QuarantineCode)
    → any (text_eq column) settlement_columns ≡ true
    → All (IsLocated line) (supplied_defects line column t read)
supplied-IsLocated line column t read c = elim (Bool-cases (is_blank t)) [
  | inl blank ↦ rw blank tt
  | inr there ↦ rw there (read-IsLocated line column (read t) c)
]

incoherent-IsLocated :
    (line : ℕ) (column : Text) (wrong : Bool)
    → any (text_eq column) settlement_columns ≡ true
    → All (IsLocated line) (incoherent line column wrong)
incoherent-IsLocated line column true c = ((column, c, refl, refl), tt)
incoherent-IsLocated line column false c = tt

presentment-IsLocated : (line : ℕ) (f : Fields) → All (IsLocated line) (presentment_defects line f)
unfolding presentment_defects
presentment-IsLocated line f =
    let odd =
      differ (not (is_blank f.presentment_amount)) (not (is_blank f.presentment_currency)) in
    let loose = not (is_blank f.fx_rate) && is_blank f.presentment_currency in
    All-append (IsLocated line) _ _
      (All-append (IsLocated line) _ _
        (All-append (IsLocated line) _ _
          (All-append (IsLocated line) (incoherent line (codes "presentment_amount") odd)
            (incoherent line (codes "fx_rate") loose)
            (incoherent-IsLocated line (codes "presentment_amount") odd refl)
            (incoherent-IsLocated line (codes "fx_rate") loose refl))
          (supplied-IsLocated line (codes "presentment_amount") f.presentment_amount read_money
            refl))
        (unit (is_blank f.presentment_currency)))
      (supplied-IsLocated line (codes "fx_rate") f.fx_rate read_rate refl)
  where
    unit :
        (b : Bool)
        → All (IsLocated line) (
            if b
            then []
            else currency_defects line (codes "presentment_currency") f.presentment_currency)
    unit true = tt
    unit false = currency-IsLocated line (codes "presentment_currency") f.presentment_currency refl

row-IsLocated : (line : ℕ) (f : Fields) → All (IsLocated line) (row_defects line f)
unfolding row_defects
row-IsLocated line f =
    All-append (IsLocated line) _ _
      (All-append (IsLocated line) _ _
        (All-append (IsLocated line) _ _
          (All-append (IsLocated line) _ _
            (All-append (IsLocated line) _ _
              (All-append (IsLocated line) _ _ (reference-IsLocated line f.psp_reference) (
                optional-IsLocated line (codes "merchant_reference") 128 f.merchant_reference refl))
              (optional-IsLocated line (codes "transaction_type") 64 f.transaction_type refl))
            (read-IsLocated line (codes "amount") (read_money f.amount) refl))
          (currency-IsLocated line (codes "currency") f.currency refl))
        (read-IsLocated line (codes "value_date") (dated (read_date f.value_date)) refl))
      (presentment-IsLocated line f)

-- A row without defects has none in its amount and its date.
clean-read :
    (line : ℕ) (f : Fields)
    → row_defects line f ≡ []
    → (defects_of line (codes "amount") (read_money f.amount) ≡ [])
      × (defects_of line (codes "value_date") (dated (read_date f.value_date)) ≡ [])
unfolding row_defects
clean-read line f h =
    let (h1, presented) = append-nil_parts _ _ h in
    let (h2, date) = append-nil_parts _ _ h1 in
    let (h3, unit) = append-nil_parts _ _ h2 in
    let (h4, money) = append-nil_parts _ _ h3 in (money, date)

-- Every row either gives a line or is refused, with at least one defect, all of which name the row
-- and a column of the format: no assertion fails.
pub normalise_total :
    (row : ParsedRow)
    → ((l : NormalisedLine) × (normalise row ≡ Normalised.line l))
      ⊎ ((ds : List Defect) × (normalise row ≡ refused ds)
          × (ds ≢ [])
          × All (IsLocated row.line) ds)
unfolding normalise
normalise_total row =
    go (row_defects row.line row.fields) (read_money row.fields.amount)
      (read_date row.fields.value_date) (row-IsLocated row.line row.fields)
      (λ e. (clean-read row.line row.fields e).0) (λ e. (clean-read row.line row.fields e).1)
  where
    go :
        (ds : List Defect) (money : Decimal ⊎ QuarantineCode) (date : Option Date)
        → All (IsLocated row.line) ds
        → (ds ≡ [] → defects_of row.line (codes "amount") money ≡ [])
        → (ds ≡ [] → defects_of row.line (codes "value_date") (dated date) ≡ [])
        → ((l : NormalisedLine) × (unless_refused ds (asserted_line row (value_of money) date)
              ≡ Normalised.line l))
          ⊎ ((es : List Defect) × (unless_refused ds (asserted_line row (value_of money) date)
                ≡ refused es)
              × (es ≢ [])
              × All (IsLocated row.line) es)
    go (d ∷ ds) money date a m t = inr (d ∷ ds, refl, (λ e. cc), a)
    go [] (inl v) (some d) a m t = inl (line_of row v d, refl)
    go [] (inl v) none a m t = absurd (cc (t refl))
    go [] (inr code) date a m t = absurd (cc (m refl))
