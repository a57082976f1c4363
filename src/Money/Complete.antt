-- ===== src/Money/Complete.antt =====
-- When an instruction is given, and when no result is.
use ledger_exception_control.Common.{
  none, some, ◌≡◌, true, Option, ◌≢◌, false, arith, ◌↔◌, refl, ap, sym,
}
use ledger_exception_control.Control.{TreatmentCode}
use ledger_exception_control.Money.Calculator.{
  price_period, compute_adjustment, price_account, ExceptionFacts, invalid_operation, member,
  period_for, AdjustmentInstruction, priced, rounding_mode,
}
use ledger_exception_control.Money.Decimal.{
  within_money_contract, Decimal, is_signaling, is_zero, finite, nan, signaling_nan, infinity,
  money_quantum,
}
use ledger_exception_control.Money.Policy.{
  LedgerContext, account_for, is_period, is_open, period_of,
}
use ledger_exception_control.Common.Text.{Text, text_eq, text_eq_refl, text_eq→eq}
use mathlib.Core.Path.{subst}
use ledger_exception_control.Money.Pricing.{guards, price_period-priced}

-- An amount within the contract is no signaling NaN.
contract-not_signaling : (a : Decimal) → within_money_contract a ≡ true → is_signaling a ≡ false
unfolding within_money_contract
contract-not_signaling (finite sign ds e) h = refl
contract-not_signaling nan h = refl
contract-not_signaling signaling_nan h = absurd (cc)
contract-not_signaling infinity h = refl

-- The period of an accrual is that of the movement which it reverses, and of a rebooking or a
-- write-off the month of the settlement; an escalation has none.
abbrev pub IsPeriodOf : TreatmentCode → ExceptionFacts → Text → Type 0
IsPeriodOf TreatmentCode.accrue x period = x.originating_period ≡ some period
IsPeriodOf TreatmentCode.rebook x period = period_of x.value_date ≡ period
IsPeriodOf TreatmentCode.write_off x period = period_of x.value_date ≡ period
IsPeriodOf TreatmentCode.escalate x period = ⊥

-- The instruction that books an exception on an account, with everything that must hold for it.
pub record IsBooked (x : ExceptionFacts) (t : TreatmentCode) (ctx : LedgerContext) (account : Text)
    (i : AdjustmentInstruction) : Type 0 where
  pub mapped : account_for ctx.accounts x.classification t ≡ some account
  pub functional : x.currency ≡ ctx.functional_currency
  pub nonzero : is_zero x.amount ≡ false
  pub contract : within_money_contract x.amount ≡ true
  pub in_period : IsPeriodOf t x i.period
  pub well_formed : is_period i.period ≡ true
  pub open_period : is_open ctx i.period ≡ true
  pub restated : i ≡ record {
    exception_id = x.exception_id;
    treatment = t;
    amount = x.amount;
    currency = x.currency;
    account_code = account;
    period = i.period;
    quantum = money_quantum;
    rounding = rounding_mode;
    ledger_context_version = ctx.version;
  }

period_for-IsPeriodOf :
    (x : ExceptionFacts) (t : TreatmentCode) (period : Text)
    → t ≢ TreatmentCode.escalate
    → period_for x t ≡ some period
    → IsPeriodOf t x period
unfolding period_for
period_for-IsPeriodOf x TreatmentCode.accrue period n h = h
period_for-IsPeriodOf x TreatmentCode.rebook period n h = cc (h)
period_for-IsPeriodOf x TreatmentCode.write_off period n h = cc (h)
period_for-IsPeriodOf x TreatmentCode.escalate period n h = absurd (n refl)

IsPeriodOf-period_for :
    (x : ExceptionFacts) (t : TreatmentCode) (period : Text)
    → IsPeriodOf t x period
    → period_for x t ≡ some period
unfolding period_for
IsPeriodOf-period_for x TreatmentCode.accrue period h = h
IsPeriodOf-period_for x TreatmentCode.rebook period h = ap some h
IsPeriodOf-period_for x TreatmentCode.write_off period h = ap some h
IsPeriodOf-period_for x TreatmentCode.escalate period h = absurd h

priced-IsBooked :
    (x : ExceptionFacts) (t : TreatmentCode) (ctx : LedgerContext) (o : Option Text)
    (i : AdjustmentInstruction)
    → t ≢ TreatmentCode.escalate
    → account_for ctx.accounts x.classification t ≡ o
    → price_account x t ctx o ≡ priced i
    → (account : Text) × IsBooked x t ctx account i
priced-IsBooked x t ctx none i n e h = absurd (unfold price_account in cc)
priced-IsBooked x t ctx (some account) i n e h =
    let (currency, nonzero, contract, rest) = guards x t ctx account i h in
    let (p, q, r, s) = price_period-priced x t ctx account (period_for x t) i rest in
    (
      account,
      record {
        mapped = e;
        functional = text_eq→eq x.currency ctx.functional_currency currency;
        nonzero = nonzero;
        contract = contract;
        in_period = period_for-IsPeriodOf x t i.period n p;
        well_formed = q;
        open_period = r;
        restated = s;
      },
    )

IsBooked-priced :
    (x : ExceptionFacts) (t : TreatmentCode) (ctx : LedgerContext) (account : Text)
    (i : AdjustmentInstruction)
    → IsBooked x t ctx account i
    → price_account x t ctx (account_for ctx.accounts x.classification t) ≡ priced i
unfolding price_account price_period
IsBooked-priced x t ctx account i b =
    let same_currency_passes : text_eq x.currency ctx.functional_currency ≡ true =
      subst (λ u. text_eq x.currency u ≡ true) b.functional (text_eq_refl x.currency) in
    rw
      (
        b.mapped,
        same_currency_passes,
        contract-not_signaling x.amount b.contract,
        b.nonzero,
        b.contract,
        IsPeriodOf-period_for x t i.period b.in_period,
        b.well_formed,
        b.open_period,
      )
      (ap priced (sym b.restated))

-- An instruction is given exactly where an account is mapped for the treatment, the exception is in
-- the currency of the books, its amount is not zero and within the money contract, and the period is
-- well-formed and open: for an accrual that of the movement which it reverses, for a rebooking or a
-- write-off the month of the settlement. It restates the exception, its account, its period and the
-- configuration's version, and there is no other. An escalation is never given one.
pub compute_adjustment_iff :
    (x : ExceptionFacts) (t : TreatmentCode) (ctx : LedgerContext) (i : AdjustmentInstruction)
    → (compute_adjustment x (member t) ctx ≡ priced i)
      ↔ ((account : Text) × IsBooked x t ctx account i)
unfolding compute_adjustment
compute_adjustment_iff x TreatmentCode.escalate ctx i =
    (λ h. absurd (cc (h)), λ (a, b). absurd b.in_period)
compute_adjustment_iff x TreatmentCode.rebook ctx i = (
  priced-IsBooked x TreatmentCode.rebook ctx _ i (λ e. cc) refl,
  λ (a, b). IsBooked-priced x TreatmentCode.rebook ctx a i b,
)
compute_adjustment_iff x TreatmentCode.accrue ctx i = (
  priced-IsBooked x TreatmentCode.accrue ctx _ i (λ e. cc) refl,
  λ (a, b). IsBooked-priced x TreatmentCode.accrue ctx a i b,
)
compute_adjustment_iff x TreatmentCode.write_off ctx i = (
  priced-IsBooked x TreatmentCode.write_off ctx _ i (λ e. cc) refl,
  λ (a, b). IsBooked-priced x TreatmentCode.write_off ctx a i b,
)

period-no_raise :
    (x : ExceptionFacts) (t : TreatmentCode) (ctx : LedgerContext) (account : Text)
    (o : Option Text)
    → price_period x t ctx account o ≢ invalid_operation
unfolding price_period
period-no_raise x t ctx account none h = absurd (cc)
period-no_raise x t ctx account (some p) h = ground arith

-- The exception is raised by the checks from the account on exactly for a signaling NaN in the
-- currency of the books.
account-raises :
    (x : ExceptionFacts) (t : TreatmentCode) (ctx : LedgerContext) (account : Text)
    → price_account x t ctx (some account) ≡ invalid_operation
    → (text_eq x.currency ctx.functional_currency ≡ true) × (is_signaling x.amount ≡ true)
unfolding price_account
account-raises x t ctx account h = ground (arith, period-no_raise x t ctx account (period_for x t))

raises-account :
    (x : ExceptionFacts) (t : TreatmentCode) (ctx : LedgerContext) (account : Text)
    → text_eq x.currency ctx.functional_currency ≡ true
    → is_signaling x.amount ≡ true
    → price_account x t ctx (some account) ≡ invalid_operation
unfolding price_account
raises-account x t ctx account c s = rw (c, s)

-- A signaling NaN for the amount, in the currency of the books, is given no result but the
-- exception `InvalidOperation` as soon as an account is mapped for the treatment.
pub compute_adjustment-raises :
    (x : ExceptionFacts) (t : TreatmentCode) (ctx : LedgerContext) (account : Text)
    → t ≢ TreatmentCode.escalate
    → account_for ctx.accounts x.classification t ≡ some account
    → text_eq x.currency ctx.functional_currency ≡ true
    → (compute_adjustment x (member t) ctx ≡ invalid_operation) ↔ (is_signaling x.amount ≡ true)
unfolding compute_adjustment
compute_adjustment-raises x TreatmentCode.escalate ctx account n a c = absurd (n refl)
compute_adjustment-raises x TreatmentCode.rebook ctx account n a c = rw a (
    (
      λ h. (account-raises x TreatmentCode.rebook ctx account h).1,
      raises-account x TreatmentCode.rebook ctx account c,
    ))
compute_adjustment-raises x TreatmentCode.accrue ctx account n a c = rw a (
    (
      λ h. (account-raises x TreatmentCode.accrue ctx account h).1,
      raises-account x TreatmentCode.accrue ctx account c,
    ))
compute_adjustment-raises x TreatmentCode.write_off ctx account n a c = rw a (
    (
      λ h. (account-raises x TreatmentCode.write_off ctx account h).1,
      raises-account x TreatmentCode.write_off ctx account c,
    ))
