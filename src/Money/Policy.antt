-- ===== src/Money/Policy.antt =====
-- money/policy.py: which account a treatment posts to, and the context of a calculation.
use ledger_exception_control.Control.{ExceptionClassification, TreatmentCode}
use ledger_exception_control.Common.{
  List, ℕ, Bool, Option, some, ◌==◌, leb, none, ◌∷◌, [], if◌then◌else◌, ◌&&◌, false, ◌||◌, not,
  is_some, ◌++◌,
}
use ledger_exception_control.Common.Text.{Text, text_le, codes}
use ledger_exception_control.Classification.Taxonomy.{accounting_period}
use ledger_exception_control.Common.Date.{Date}

abbrev pub is_digit : ℕ → Bool
is_digit c = leb b'0' c && leb c b'9'

-- `_ACCOUNT_CODE.fullmatch(value)`, for `[0-9]{4}`.
unfoldable pub is_account_code : Text → Bool
is_account_code (a ∷ b ∷ c ∷ d ∷ []) = is_digit a && (is_digit b && (is_digit c && is_digit d))
is_account_code _ = false

-- `0[1-9]|1[0-2]`
abbrev pub is_month : ℕ → ℕ → Bool
is_month a b = a == b'0' && (leb b'1' b && leb b b'9') || a == b'1' && (leb b'0' b && leb b b'2')

-- `_PERIOD.fullmatch(value)`, for `[0-9]{4}-(0[1-9]|1[0-2])`.
unfoldable pub is_period : Text → Bool
is_period (a ∷ b ∷ c ∷ d ∷ dash ∷ m ∷ n ∷ []) =
    is_digit a && (is_digit b && (is_digit c && (is_digit d && (dash == b'-' && is_month m n))))
is_period _ = false

abbrev is_upper : ℕ → Bool
is_upper c = leb b'A' c && leb c b'Z'

unfoldable pub is_currency : Text → Bool
is_currency (a ∷ b ∷ c ∷ []) = is_upper a && (is_upper b && is_upper c)
is_currency _ = false

abbrev pub classification_code : ExceptionClassification → ℕ
classification_code ExceptionClassification.partial_capture = 0
classification_code ExceptionClassification.fee_split = 1
classification_code ExceptionClassification.chargeback_reversal = 2
classification_code ExceptionClassification.fx_rounding = 3
classification_code ExceptionClassification.cross_period_refund = 4
classification_code ExceptionClassification.unclassified = 5

abbrev pub treatment_code : TreatmentCode → ℕ
treatment_code TreatmentCode.rebook = 0
treatment_code TreatmentCode.accrue = 1
treatment_code TreatmentCode.write_off = 2
treatment_code TreatmentCode.escalate = 3

pub record AccountRule : Type 0 where
  pub classification : ExceptionClassification
  pub treatment : TreatmentCode
  pub account : Text

abbrev pub same_pair : AccountRule → ExceptionClassification → TreatmentCode → Bool
same_pair r c t =
    classification_code r.classification == classification_code c
    && treatment_code r.treatment == treatment_code t

-- `AccountPolicy.rules`: a mapping whose pairs are the rules.
pub record AccountPolicy : Type 0 where
  pub rules : List AccountRule

unfoldable pub lookup : List AccountRule → ExceptionClassification → TreatmentCode → Option Text
lookup [] c t = none
lookup (r ∷ rs) c t = if same_pair r c t then some r.account else lookup rs c t

unfoldable pub account_for : AccountPolicy → ExceptionClassification → TreatmentCode → Option Text
unfolding lookup
account_for p c t = lookup p.rules c t

pub data PolicyError : Type 0 where
  ambiguous_policy : AccountRule → PolicyError
  escalate_mapped : PolicyError
  bad_account_code : Text → PolicyError

pub data PolicyResult : Type 0 where
  built : AccountPolicy → PolicyResult
  raised : PolicyError → PolicyResult

-- The checks of `AccountPolicy.__post_init__`, on the entries in their order. What a Python type
-- check refuses there cannot be written here.
unfoldable pub post_init : List AccountRule → Option PolicyError
post_init [] = none
post_init (r ∷ rs) =
    if treatment_code r.treatment == treatment_code TreatmentCode.escalate
    then some escalate_mapped
    else if not (is_account_code r.account)
    then some (bad_account_code r.account)
    else post_init rs

abbrev checked : List AccountRule → Option PolicyError → PolicyResult
checked rules none = built (record { rules = rules })
checked rules (some e) = raised e

-- `account_policy`: the loop that fills the mapping and refuses a pair given twice.
unfoldable pub collect : List AccountRule → List AccountRule → PolicyResult
unfolding post_init lookup
collect collected [] = checked collected (post_init collected)
collect collected (r ∷ rs) =
    if is_some (lookup collected r.classification r.treatment)
    then raised (ambiguous_policy r)
    else collect (collected ++ r ∷ []) rs

unfoldable pub account_policy : List AccountRule → PolicyResult
unfolding collect
account_policy rules = collect [] rules

abbrev account_revenue : Text
account_revenue = codes "4100"

abbrev account_chargebacks : Text
account_chargebacks = codes "4900"

abbrev account_write_offs : Text
account_write_offs = codes "6900"

-- `DEMO_ACCOUNT_POLICY`
abbrev pub demo_rules : List AccountRule
demo_rules =
    (record {
      classification = ExceptionClassification.chargeback_reversal;
      treatment = TreatmentCode.rebook;
      account = account_chargebacks;
    })
    ∷ (record {
      classification = ExceptionClassification.chargeback_reversal;
      treatment = TreatmentCode.accrue;
      account = account_chargebacks;
    })
    ∷ (record {
      classification = ExceptionClassification.chargeback_reversal;
      treatment = TreatmentCode.write_off;
      account = account_write_offs;
    })
    ∷ (record {
      classification = ExceptionClassification.cross_period_refund;
      treatment = TreatmentCode.rebook;
      account = account_revenue;
    })
    ∷ (record {
      classification = ExceptionClassification.cross_period_refund;
      treatment = TreatmentCode.accrue;
      account = account_revenue;
    })
    ∷ (record {
      classification = ExceptionClassification.cross_period_refund;
      treatment = TreatmentCode.write_off;
      account = account_write_offs;
    })
    ∷ []

abbrev pub demo_account_policy : AccountPolicy
demo_account_policy = record { rules = demo_rules }

pub record LedgerContext : Type 0 where
  pub version : Text
  pub functional_currency : Text
  pub earliest_open_period : Text
  pub accounts : AccountPolicy

-- `period >= self.earliest_open_period`, a comparison of texts.
unfoldable pub is_open : LedgerContext → Text → Bool
is_open ctx period = text_le ctx.earliest_open_period period

unfoldable pub period_of : Date → Text
unfolding accounting_period
period_of date = accounting_period date
