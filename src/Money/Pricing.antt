-- ===== src/Money/Pricing.antt =====
-- What a priced instruction establishes.
use ledger_exception_control.Control.{TreatmentCode}
use ledger_exception_control.Common.{Option, ◌≡◌, ◌≢◌, some, true, false, arith, none, ap, refl}
use ledger_exception_control.Money.Calculator.{
  price_account, ExceptionFacts, price_period, AdjustmentInstruction, priced, period_for,
  rounding_mode, compute_adjustment, GivenTreatment, member, impostor,
}
use ledger_exception_control.Money.Policy.{LedgerContext, account_for, is_period, is_open}
use ledger_exception_control.Common.Text.{Text, text_eq, text_eq→eq}
use ledger_exception_control.Money.Decimal.{is_zero, within_money_contract, money_quantum}

-- Everything that is checked before an instruction is given, and what the instruction says.
pub record Justified (x : ExceptionFacts) (t : TreatmentCode) (ctx : LedgerContext)
    (i : AdjustmentInstruction) : Type 0 where
  pub acted_on : t ≢ TreatmentCode.escalate
  pub mapped : account_for ctx.accounts x.classification t ≡ some i.account_code
  pub functional : x.currency ≡ ctx.functional_currency
  pub nonzero : is_zero x.amount ≡ false
  pub within_contract : within_money_contract x.amount ≡ true
  pub in_period : period_for x t ≡ some i.period
  pub well_formed : is_period i.period ≡ true
  pub open_period : is_open ctx i.period ≡ true
  pub same_amount : i.amount ≡ x.amount
  pub same_currency : i.currency ≡ x.currency
  pub same_exception : i.exception_id ≡ x.exception_id
  pub same_treatment : i.treatment ≡ t
  pub same_version : i.ledger_context_version ≡ ctx.version
  pub declared_quantum : i.quantum ≡ money_quantum
  pub declared_rounding : i.rounding ≡ rounding_mode

-- The part from the period on.
pub price_period-priced :
    (x : ExceptionFacts) (t : TreatmentCode) (ctx : LedgerContext) (account : Text)
    (o : Option Text) (i : AdjustmentInstruction)
    → price_period x t ctx account o ≡ priced i
    → (o ≡ some i.period)
      × (is_period i.period ≡ true)
      × (is_open ctx i.period ≡ true)
      × (i ≡ record {
        exception_id = x.exception_id;
        treatment = t;
        amount = x.amount;
        currency = x.currency;
        account_code = account;
        period = i.period;
        quantum = money_quantum;
        rounding = rounding_mode;
        ledger_context_version = ctx.version;
      })
unfolding price_period
price_period-priced x t ctx account none i h = absurd (cc)
price_period-priced x t ctx account (some p) i h = ground arith

pub guards :
    (x : ExceptionFacts) (t : TreatmentCode) (ctx : LedgerContext) (account : Text)
    (i : AdjustmentInstruction)
    → price_account x t ctx (some account) ≡ priced i
    → (text_eq x.currency ctx.functional_currency ≡ true)
      × (is_zero x.amount ≡ false)
      × (within_money_contract x.amount ≡ true)
      × (price_period x t ctx account (period_for x t) ≡ priced i)
unfolding price_account
guards x t ctx account i h = ground arith

price_account-priced :
    (x : ExceptionFacts) (t : TreatmentCode) (ctx : LedgerContext) (o : Option Text)
    (i : AdjustmentInstruction)
    → t ≢ TreatmentCode.escalate
    → account_for ctx.accounts x.classification t ≡ o
    → price_account x t ctx o ≡ priced i
    → Justified x t ctx i
price_account-priced x t ctx none i n e h = absurd (unfold price_account in cc)
price_account-priced x t ctx (some account) i n e h =
    let (currency, nonzero, contract, rest) = guards x t ctx account i h in
    let (p, q, r, s) = price_period-priced x t ctx account (period_for x t) i rest in
    record {
      acted_on = n;
      mapped = cc (e, s);
      functional = text_eq→eq x.currency ctx.functional_currency currency;
      nonzero = nonzero;
      within_contract = contract;
      in_period = p;
      well_formed = q;
      open_period = r;
      same_amount = ap (λ j. j.amount) s;
      same_currency = ap (λ j. j.currency) s;
      same_exception = ap (λ j. j.exception_id) s;
      same_treatment = ap (λ j. j.treatment) s;
      same_version = ap (λ j. j.ledger_context_version) s;
      declared_quantum = ap (λ j. j.quantum) s;
      declared_rounding = ap (λ j. j.rounding) s;
    }

-- An instruction is given only for one of the treatments but escalation, with an account mapped for
-- it, in the currency of the books, for an amount that is not zero and that four decimal places and
-- sixteen integer digits hold exactly, in a well-formed open period; and it restates that very
-- amount, in that currency and period, with the configuration's version.
pub compute_adjustment-Justified :
    (x : ExceptionFacts) (g : GivenTreatment) (ctx : LedgerContext) (i : AdjustmentInstruction)
    → compute_adjustment x g ctx ≡ priced i
    → (t : TreatmentCode) × (g ≡ member t) × Justified x t ctx i
unfolding compute_adjustment
compute_adjustment-Justified x (impostor value) ctx i h = absurd (cc)
compute_adjustment-Justified x (member TreatmentCode.escalate) ctx i h = absurd (cc)
compute_adjustment-Justified x (member TreatmentCode.rebook) ctx i h = (
  TreatmentCode.rebook,
  refl,
  price_account-priced x TreatmentCode.rebook ctx
      (account_for ctx.accounts x.classification TreatmentCode.rebook) i (λ e. cc) refl h,
)
compute_adjustment-Justified x (member TreatmentCode.accrue) ctx i h = (
  TreatmentCode.accrue,
  refl,
  price_account-priced x TreatmentCode.accrue ctx
      (account_for ctx.accounts x.classification TreatmentCode.accrue) i (λ e. cc) refl h,
)
compute_adjustment-Justified x (member TreatmentCode.write_off) ctx i h = (
  TreatmentCode.write_off,
  refl,
  price_account-priced x TreatmentCode.write_off ctx
      (account_for ctx.accounts x.classification TreatmentCode.write_off) i (λ e. cc) refl h,
)
