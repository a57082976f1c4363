-- ===== src/Classification/Taxonomy.antt =====
-- classification/taxonomy.py: movement types, rules and what they conclude, accounting periods.
use ledger_exception_control.Control.{ExceptionClassification}
use ledger_exception_control.Common.Date.{Date}
use ledger_exception_control.Common.{
  ℕ, Option, List, ◌+◌, some, none, ◌∷◌, Bool, ◌/◌, [], false, ◌%◌, ◌==◌, if◌then◌else◌,
}
use ledger_exception_control.Common.Text.{Text, codes, text_eq}

pub data MovementType : Type 0 where
  capture fee refund chargeback chargeback_reversal adjustment : MovementType

abbrev pub movement_code : MovementType → ℕ
movement_code capture = 0
movement_code fee = 1
movement_code refund = 2
movement_code chargeback = 3
movement_code chargeback_reversal = 4
movement_code adjustment = 5

-- `movement is kind`
abbrev pub is_kind : Option MovementType → MovementType → Bool
is_kind none kind = false
is_kind (some m) kind = movement_code m == movement_code kind

abbrev pub movement_value : MovementType → Text
movement_value capture = codes "capture"
movement_value fee = codes "fee"
movement_value refund = codes "refund"
movement_value chargeback = codes "chargeback"
movement_value chargeback_reversal = codes "chargeback_reversal"
movement_value adjustment = codes "adjustment"

abbrev pub all_movements : List MovementType
all_movements = capture ∷ fee ∷ refund ∷ chargeback ∷ chargeback_reversal ∷ adjustment ∷ []

-- `MovementType(declared)`: the member of that value, or a `ValueError`.
unfoldable pub member_of : List MovementType → Text → Option MovementType
member_of [] declared = none
member_of (m ∷ ms) declared =
    if text_eq (movement_value m) declared then some m else member_of ms declared

unfoldable pub movement_type : Option Text → Option MovementType
unfolding member_of
movement_type none = none
movement_type (some declared) = member_of all_movements declared

pub data ClassificationRule : Type 0 where
  reversal_of_booked_chargeback refund_of_booked_capture_across_periods : ClassificationRule
  fees_deducted_from_a_capture no_rule_matched : ClassificationRule

unfoldable pub rule_classification : ClassificationRule → ExceptionClassification
rule_classification reversal_of_booked_chargeback = ExceptionClassification.chargeback_reversal
rule_classification refund_of_booked_capture_across_periods =
    ExceptionClassification.cross_period_refund
rule_classification fees_deducted_from_a_capture = ExceptionClassification.fee_split
rule_classification no_rule_matched = ExceptionClassification.unclassified

abbrev pub rule_precedence : List ClassificationRule
rule_precedence =
    reversal_of_booked_chargeback ∷ refund_of_booked_capture_across_periods
    ∷ fees_deducted_from_a_capture ∷ []

-- The code point of a decimal digit.
abbrev pub digit : ℕ → ℕ
digit n = b'0' + n

-- `accounting_period`: `YYYY-MM`. Python's years have at most four digits.
unfoldable pub accounting_period : Date → Text
accounting_period d =
    digit (d.year / 1000)
    ∷ digit (d.year / 100 % 10)
    ∷ digit (d.year / 10 % 10)
    ∷ digit (d.year % 10)
    ∷ b'-'
    ∷ digit (d.month / 10)
    ∷ digit (d.month % 10)
    ∷ []
