-- ===== src/Money/Tests.antt =====
-- A reversed chargeback in the demonstration context, priced; and what happens on a signaling NaN.
use ledger_exception_control.Control.{ExceptionClassification, TreatmentCode}
use ledger_exception_control.Common.{ℕ, ◌≢◌, ◌∷◌, ◌≡◌, [], some, true, false, ◌↔◌, refl, arith}
use ledger_exception_control.Money.Decimal.{
  is_zero, within_money_contract, within_money_scale, Decimal, finite, signaling_nan, money_quantum,
}
use ledger_exception_control.Money.Policy.{
  is_period, LedgerContext, account_for, is_open, demo_account_policy, period_of,
}
use ledger_exception_control.Money.Scale.{AreDigits, Represents, within_money_scale_iff}
use ledger_exception_control.Money.Calculator.{
  AdjustmentInstruction, period_for, member, compute_adjustment, price_account, ExceptionFacts,
  price_period, invalid_operation, priced, rounding_mode,
}
use ledger_exception_control.Common.Text.{Text, codes}
use ledger_exception_control.Money.Pricing.{Justified, compute_adjustment-Justified}
use ledger_exception_control.Money.Complete.{
  IsBooked, compute_adjustment_iff, compute_adjustment-raises,
}
use ledger_exception_control.Common.Int.{negsuc}

abbrev context : LedgerContext
context = record {
  version = codes "v1";
  functional_currency = codes "EUR";
  earliest_open_period = codes "2026-01";
  accounts = demo_account_policy;
}

-- 12.50
abbrev twelve_fifty : Decimal
twelve_fifty = finite false (1 ∷ 2 ∷ 5 ∷ 0 ∷ []) (negsuc 1)

abbrev facts_of : Decimal → ExceptionFacts
facts_of amount = record {
  exception_id = 7;
  classification = ExceptionClassification.chargeback_reversal;
  amount = amount;
  currency = codes "EUR";
  value_date = record { year = 2026; month = 3; day = 2 };
  originating_period = some (codes "2026-02");
}

abbrev rebooked : AdjustmentInstruction
rebooked = record {
  exception_id = 7;
  treatment = TreatmentCode.rebook;
  amount = twelve_fifty;
  currency = codes "EUR";
  account_code = codes "4900";
  period = codes "2026-03";
  quantum = money_quantum;
  rounding = rounding_mode;
  ledger_context_version = codes "v1";
}

rebooked_run :
    compute_adjustment (facts_of twelve_fifty) (member TreatmentCode.rebook) context
    ≡ priced rebooked
unfolding compute_adjustment account_for price_account price_period period_for period_of is_period
    is_open is_zero within_money_contract
rebooked_run = refl

compute_adjustment-Justified_example :
    (t : TreatmentCode) × (member TreatmentCode.rebook ≡ member t)
    × Justified (facts_of twelve_fifty) t context rebooked
compute_adjustment-Justified_example =
    compute_adjustment-Justified (facts_of twelve_fifty) (member TreatmentCode.rebook) context
      rebooked rebooked_run

mapped_rebook :
    account_for context.accounts ExceptionClassification.chargeback_reversal TreatmentCode.rebook
    ≡ some (codes "4900")
unfolding account_for
mapped_rebook = refl

mapped_accrual :
    account_for context.accounts ExceptionClassification.chargeback_reversal TreatmentCode.accrue
    ≡ some (codes "4900")
unfolding account_for
mapped_accrual = refl

is_acted_on : TreatmentCode.accrue ≢ TreatmentCode.escalate
is_acted_on h = cc

compute_adjustment_iff_example :
    (compute_adjustment (facts_of twelve_fifty) (member TreatmentCode.rebook) context
      ≡ priced rebooked)
    ↔ ((account : Text) × IsBooked
          (facts_of twelve_fifty)
          TreatmentCode.rebook
          context
          account
          rebooked)
compute_adjustment_iff_example =
    compute_adjustment_iff (facts_of twelve_fifty) TreatmentCode.rebook context rebooked

compute_adjustment-raises_example :
    (compute_adjustment (facts_of signaling_nan) (member TreatmentCode.accrue) context
      ≡ invalid_operation)
    ↔ (true ≡ true)
compute_adjustment-raises_example =
    compute_adjustment-raises (facts_of signaling_nan) TreatmentCode.accrue context (codes "4900")
      is_acted_on mapped_accrual refl

proper_digits : AreDigits (1 ∷ 2 ∷ 5 ∷ 0 ∷ [])
proper_digits = (omega arith, (omega arith, (omega arith, (omega arith, tt))))

within_money_scale_iff_example :
    (within_money_scale twelve_fifty ≡ true)
    ↔ ((n : ℕ) × Represents (1 ∷ 2 ∷ 5 ∷ 0 ∷ []) (negsuc 1) n)
within_money_scale_iff_example =
    within_money_scale_iff false (1 ∷ 2 ∷ 5 ∷ 0 ∷ []) (negsuc 1) proper_digits
