-- ===== src/Ingest/Readings.antt =====
-- ingest/normalise.py: what holds of a field in which no defect is found.
use ledger_exception_control.Common.{
  ℕ, none, some, Option, Bool, List, [], ◌∷◌, ◌++◌, ◌≤◌, ◌≡◌, ◌&&◌, true, false, arith, refl, any,
  not, is_some, length, Bool-cases, inl, inr, if◌then◌else◌, ◌⊎◌,
}
use ledger_exception_control.Common.Text.{Text, codes, is_blank}
use ledger_exception_control.Money.Decimal.{
  Decimal, within_money_contract, within_money_scale, below_magnitude_bound, finite, nan,
  signaling_nan, infinity,
}
use ledger_exception_control.Ingest.Defect.{QuarantineCode, invalid_fx_rate}
use ledger_exception_control.Ingest.Parser.{Fields}
use ledger_exception_control.Ingest.Normalise.{
  optional_defects, value_of, storable_defects, reference_defects, is_unstorable, optional_text,
  money_value, is_positive, currency_defects, rate_value, defects_of, read_money, read_decimal,
}
use ledger_exception_control.Money.Policy.{is_currency}
use ledger_exception_control.Ingest.Row.{
  is_calendar_date, supplied_defects, supplied, read_date, incoherent, presentment_defects, differ,
  checked_date, dated, read_rate, spelled_date, is_iso_shape,
}
use ledger_exception_control.Common.Date.{Date}

-- A text that a column of that width holds.
pub record IsStorableText (bound : ℕ) (t : Text) : Type 0 where
  pub supplied : is_blank t ≡ false
  pub fits : length t ≤ bound
  pub printable : any is_unstorable t ≡ false

abbrev pub WhereSome : {A : Type 0} → (A → Type 0) → Option A → Type 0
WhereSome P none = Unit
WhereSome P (some a) = P a

pub append-nil_parts : {A : Type 0} (xs ys : List A) → xs ++ ys ≡ [] → (xs ≡ []) × (ys ≡ [])
append-nil_parts [] ys h = (refl, h)
append-nil_parts (x ∷ xs) ys h = absurd (cc (h))

storable-text :
    (line : ℕ) (column : Text) (bound : ℕ) (t : Text)
    → is_blank t ≡ false
    → storable_defects line column bound t ≡ []
    → IsStorableText bound t
storable-text line column bound t h k = ground arith

pub reference-storable :
    (line : ℕ) (t : Text) → reference_defects line t ≡ [] → IsStorableText 128 t
unfolding reference_defects
reference-storable line t k = elim (Bool-cases (is_blank t)) [
  | inl blank ↦ absurd (cc (k, blank))
  | inr there ↦ storable-text line (codes "psp_reference") 128 t there (ground (arith, k, there))
]

pub optional-storable :
    (line : ℕ) (column : Text) (bound : ℕ) (t : Text)
    → optional_defects line column bound t ≡ []
    → WhereSome (IsStorableText bound) (optional_text t)
unfolding optional_defects
optional-storable line column bound t k = elim (Bool-cases (is_blank t)) [
  | inl blank ↦ rw blank tt
  | inr there ↦ rw there (storable-text line column bound t there (ground (arith, k, there)))
]

money-tested :
    (o : Option Decimal) (a : Decimal)
    → value_of (money_value o) ≡ some a
    → (within_money_scale a ≡ true) × (below_magnitude_bound a ≡ true)
money-tested none a h = absurd (cc (h))
money-tested (some v) a h = ground (arith, h)

tested-contract :
    (a : Decimal)
    → within_money_scale a ≡ true
    → below_magnitude_bound a ≡ true
    → within_money_contract a ≡ true
unfolding within_money_contract
tested-contract (finite sign ds e) h k = rw (h, k) refl
tested-contract nan h k = h
tested-contract signaling_nan h k = h
tested-contract infinity h k = h

pub money-exact :
    (o : Option Decimal) (a : Decimal)
    → value_of (money_value o) ≡ some a
    → within_money_contract a ≡ true
money-exact o a h = let (scale, bound) = money-tested o a h in tested-contract a scale bound

-- What is read without a defect is what the reading finds.
defectless :
    {A : Type 0} (P : A → Type 0) (line : ℕ) (column : Text) (r : A ⊎ QuarantineCode)
    → ((a : A) → value_of r ≡ some a → P a)
    → defects_of line column r ≡ []
    → (a : A) × (value_of r ≡ some a) × P a
defectless P line column (inl a) f h = (a, refl, f a refl)
defectless P line column (inr code) f h = absurd (cc (h))

supplied-holds :
    {A : Type 0} (P : A → Type 0) (line : ℕ) (column t : Text) (read : Text → A ⊎ QuarantineCode)
    → ((a : A) → value_of (read t) ≡ some a → P a)
    → supplied_defects line column t read ≡ []
    → WhereSome P (supplied t read) × (is_some (supplied t read) ≡ not (is_blank t))
supplied-holds P line column t read f h = elim (Bool-cases (is_blank t)) [
  | inl blank ↦ rw blank (tt, refl)
  | inr there ↦
      let (a, e, p) = defectless P line column (read t) f (ground (arith, h, there)) in
      rw (there, e) (p, refl)
]

rate-positive :
    (o : Option Decimal) (a : Decimal) → value_of (rate_value o) ≡ some a → is_positive a ≡ true
rate-positive none a h = absurd (cc (h))
rate-positive (some r) a h = go (is_positive r) refl h
  where
    go :
        (b : Bool)
        → is_positive r ≡ b
        → value_of (if b then inl r else inr invalid_fx_rate) ≡ some a
        → is_positive a ≡ true
    go true p e = cc (p, e)
    go false p e = absurd (cc (e))

pub currency-holds :
    (line : ℕ) (column t : Text) → currency_defects line column t ≡ [] → is_currency t ≡ true
unfolding currency_defects
currency-holds line column t h = ground (arith, h)

presented-unit :
    (line : ℕ) (t : Text)
    → (if is_blank t then [] else currency_defects line (codes "presentment_currency") t) ≡ []
    → WhereSome (λ c. is_currency c ≡ true) (optional_text t)
      × (is_some (optional_text t) ≡ not (is_blank t))
presented-unit line t h = elim (Bool-cases (is_blank t)) [
  | inl blank ↦ rw blank (tt, refl)
  | inr there ↦
      rw there
        (currency-holds line (codes "presentment_currency") t (ground (arith, h, there)), refl)
]

-- A text that is accepted as it stands.
abbrev pub PresentmentCoherent : Fields → Type 0
PresentmentCoherent f =
    (is_blank f.presentment_amount ≡ is_blank f.presentment_currency)
    × (is_blank f.fx_rate ≡ false → is_blank f.presentment_currency ≡ false)

coherent-lem :
    (line : ℕ) (a c r : Bool)
    → incoherent line (codes "presentment_amount") (differ (not a) (not c)) ≡ []
    → incoherent line (codes "fx_rate") (not r && c) ≡ []
    → (a ≡ c) × (r ≡ false → c ≡ false)
coherent-lem line true true true h k = (refl, λ e. cc)
coherent-lem line true true false h k = absurd (cc (k))
coherent-lem line true false r h k = absurd (cc (h))
coherent-lem line false true r h k = absurd (cc (h))
coherent-lem line false false r h k = (refl, λ e. refl)

-- The five parts of the presentment that a row without defects has.
pub presentment-holds :
    (line : ℕ) (f : Fields)
    → presentment_defects line f ≡ []
    → PresentmentCoherent f
      × (WhereSome (λ a. within_money_contract a ≡ true) (supplied f.presentment_amount read_money)
          × (is_some (supplied f.presentment_amount read_money)
              ≡ not (is_blank f.presentment_amount)))
      × (WhereSome (λ c. is_currency c ≡ true) (optional_text f.presentment_currency)
          × (is_some (optional_text f.presentment_currency)
              ≡ not (is_blank f.presentment_currency)))
      × (WhereSome (λ r. is_positive r ≡ true) (supplied f.fx_rate read_rate)
          × (is_some (supplied f.fx_rate read_rate) ≡ not (is_blank f.fx_rate)))
unfolding presentment_defects
presentment-holds line f h =
    let (h4, rate) = append-nil_parts _ _ h in
    let (h3, unit) = append-nil_parts _ _ h4 in
    let (h2, amount) = append-nil_parts _ _ h3 in
    let (paired, converted) = append-nil_parts _ _ h2 in
    (
      coherent-lem line (is_blank f.presentment_amount) (is_blank f.presentment_currency)
          (is_blank f.fx_rate) paired converted,
      supplied-holds (λ a. within_money_contract a ≡ true) line (codes "presentment_amount")
          f.presentment_amount read_money (money-exact (read_decimal f.presentment_amount)) amount,
      presented-unit line f.presentment_currency unit,
      supplied-holds (λ r. is_positive r ≡ true) line (codes "fx_rate") f.fx_rate read_rate
          (rate-positive (read_decimal f.fx_rate)) rate,
    )

date-calendar : (o : Option Date) (d : Date) → value_of (dated o) ≡ some d → o ≡ some d
date-calendar none d h = absurd (cc (h))
date-calendar (some e) d h = h

guarded :
    {A : Type 0} (b : Bool) (o : Option A) (a : A) → (if b then o else none) ≡ some a → o ≡ some a
guarded true o a h = h
guarded false o a h = absurd (cc (h))

checked-calendar : (e d : Date) → checked_date e ≡ some d → is_calendar_date d ≡ true
checked-calendar e d h = go (is_calendar_date e) refl h
  where
    go :
        (b : Bool)
        → is_calendar_date e ≡ b
        → (if b then some e else none) ≡ some d
        → is_calendar_date d ≡ true
    go true p k = cc (p, k)
    go false p k = absurd (cc (k))

pub read_date-calendar : (t : Text) (d : Date) → read_date t ≡ some d → is_calendar_date d ≡ true
unfolding read_date
read_date-calendar (a ∷ b ∷ c ∷ x ∷ p ∷ m ∷ n ∷ q ∷ e ∷ f ∷ []) d h =
    checked-calendar (spelled_date a b c x m n e f) d
      (guarded (is_iso_shape a b c x p m n q e f) (checked_date (spelled_date a b c x m n e f)) d h)
read_date-calendar [] d h = absurd (cc (h))
read_date-calendar _ d h = absurd (cc (h))
