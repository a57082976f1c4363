-- ===== src/Money/Calculator.antt =====
-- money/calculator.py: `compute_adjustment`.
use ledger_exception_control.Control.{ExceptionClassification, TreatmentCode}
use ledger_exception_control.Money.Policy.{
  LedgerContext, account_for, period_of, is_period, is_open,
}
use ledger_exception_control.Common.{ℕ, Option, some, if◌then◌else◌, not, none}
use ledger_exception_control.Common.Text.{Text, codes, text_eq}
use ledger_exception_control.Money.Decimal.{
  Decimal, is_zero, within_money_contract, money_quantum, is_signaling,
}
use ledger_exception_control.Common.Date.{Date}

pub data NonCalculable : Type 0 where
  treatment_not_recognised treatment_is_escalate no_account_mapped : NonCalculable
  no_originating_period period_malformed period_closed currency_not_functional : NonCalculable
  amount_is_zero amount_outside_money_contract : NonCalculable

pub record ExceptionFacts : Type 0 where
  pub exception_id : ℕ
  pub classification : ExceptionClassification
  pub amount : Decimal
  pub currency : Text
  pub value_date : Date
  pub originating_period : Option Text

pub record AdjustmentInstruction : Type 0 where
  pub exception_id : ℕ
  pub treatment : TreatmentCode
  pub amount : Decimal
  pub currency : Text
  pub account_code : Text
  pub period : Text
  pub quantum : Decimal
  pub rounding : Text
  pub ledger_context_version : Text

pub data CalculationResult : Type 0 where
  priced : AdjustmentInstruction → CalculationResult
  refused : NonCalculable → CalculationResult
  -- The exception `decimal.InvalidOperation`, raised instead of a result.
  invalid_operation : CalculationResult

-- What a caller may pass as a treatment: a member of the enumeration, or another object, such as
-- the bare text of a member's value.
pub data GivenTreatment : Type 0 where
  member : TreatmentCode → GivenTreatment
  impostor : Text → GivenTreatment

abbrev pub rounding_mode : Text
rounding_mode = codes "ROUND_HALF_UP"

-- `_period_for`
unfoldable pub period_for : ExceptionFacts → TreatmentCode → Option Text
period_for x TreatmentCode.accrue = x.originating_period
period_for x t = some (period_of x.value_date)

-- The checks from the period on.
unfoldable pub price_period :
    ExceptionFacts → TreatmentCode → LedgerContext → Text → Option Text → CalculationResult
price_period x t ctx account none = refused no_originating_period
price_period x t ctx account (some period) =
    if not (is_period period)
    then refused period_malformed
    else if not (is_open ctx period)
    then refused period_closed
    else priced (record {
      exception_id = x.exception_id;
      treatment = t;
      amount = x.amount;
      currency = x.currency;
      account_code = account;
      period = period;
      quantum = money_quantum;
      rounding = rounding_mode;
      ledger_context_version = ctx.version;
    })

-- The checks from the account on.
unfoldable pub price_account :
    ExceptionFacts → TreatmentCode → LedgerContext → Option Text → CalculationResult
price_account x t ctx none = refused no_account_mapped
price_account x t ctx (some account) =
    if not (text_eq x.currency ctx.functional_currency)
    then refused currency_not_functional
    else if is_signaling x.amount
    then invalid_operation
    else if is_zero x.amount
    then refused amount_is_zero
    else if not (within_money_contract x.amount)
    then refused amount_outside_money_contract
    else price_period x t ctx account (period_for x t)

-- `compute_adjustment`
unfoldable pub compute_adjustment :
    ExceptionFacts → GivenTreatment → LedgerContext → CalculationResult
compute_adjustment x (impostor value) ctx = refused treatment_not_recognised
compute_adjustment x (member TreatmentCode.escalate) ctx = refused treatment_is_escalate
compute_adjustment x (member t) ctx =
    price_account x t ctx (account_for ctx.accounts x.classification t)
