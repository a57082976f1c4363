-- ===== src/Classification/Engine.antt =====
-- classification/engine.py: the rules over a residual and its related movements, and `classify`.
-- Amounts are whole ten-thousandths, and identifiers numbers, as in the matching engine.
use ledger_exception_control.Control.{ExceptionClassification}
use ledger_exception_control.Classification.Taxonomy.{
  ClassificationRule, MovementType, rule_classification, rule_precedence,
  reversal_of_booked_chargeback, is_kind, fee, refund_of_booked_capture_across_periods,
  no_rule_matched, capture, fees_deducted_from_a_capture, accounting_period, refund,
  chargeback_reversal, chargeback,
}
use ledger_exception_control.Common.Int.{ℤ, pos, ltb_ℤ, eq_ℤ, ◌+ℤ◌, max_ℤ, negate, leb_ℤ}
use ledger_exception_control.Common.Date.{Date}
use ledger_exception_control.Common.{
  ℕ, Bool, List, [], keep, map, ◌&&◌, ◌∷◌, any, false, Option, some, ◌++◌, not, ◌==◌, none,
  if◌then◌else◌, ◌||◌, contains, length,
}
use ledger_exception_control.Common.Text.{Text, text_eq}

pub record SettlementMovement : Type 0 where
  pub id : ℕ
  pub merchant_reference : Option Text
  pub movement : Option MovementType
  pub amount : ℤ
  pub currency : Text
  pub value_date : Date
  pub matched : Bool

pub record Classification : Type 0 where
  pub line_id : ℕ
  pub classification : ExceptionClassification
  pub rule_id : ClassificationRule

-- `_Evidence`
pub record Evidence : Type 0 where
  pub subject : SettlementMovement
  pub related : List SettlementMovement

abbrev pub is_booked_offset : SettlementMovement → SettlementMovement → Bool
is_booked_offset subject m = m.matched && eq_ℤ m.amount (negate subject.amount)

unfoldable pub booked_offsets_of_type : Evidence → MovementType → List SettlementMovement
booked_offsets_of_type e kind =
    keep (λ m. m.matched && (is_kind m.movement kind && eq_ℤ m.amount (negate e.subject.amount)))
      e.related

unfoldable pub any_booked_offset : Evidence → Bool
any_booked_offset e = any (is_booked_offset e.subject) e.related

unfoldable pub unreconciled_group : Evidence → List SettlementMovement
unreconciled_group e = e.subject ∷ keep (λ m. not m.matched) e.related

unfoldable pub reversal_of_booked_chargeback_rule : Evidence → Bool
reversal_of_booked_chargeback_rule e =
    if not (is_kind e.subject.movement chargeback_reversal)
    then false
    else if leb_ℤ e.subject.amount (pos 0)
    then false
    else length (booked_offsets_of_type e chargeback) == 1

-- The end of the refund rule, on the offsets: exactly one, of another accounting period.
abbrev pub in_other_period : Date → List SettlementMovement → Bool
in_other_period date [] = false
in_other_period date (m ∷ []) =
    not (text_eq (accounting_period m.value_date) (accounting_period date))
in_other_period date (m ∷ n ∷ more) = false

unfoldable pub refund_of_booked_capture_rule : Evidence → Bool
refund_of_booked_capture_rule e =
    if not (is_kind e.subject.movement refund)
    then false
    else if leb_ℤ (pos 0) e.subject.amount
    then false
    else in_other_period e.subject.value_date (booked_offsets_of_type e capture)

unfoldable pub inflows : List SettlementMovement → List ℤ
inflows group =
    map (λ m. m.amount) (keep (λ m. is_kind m.movement capture && ltb_ℤ (pos 0) m.amount) group)

unfoldable pub deductions : List SettlementMovement → List ℤ
deductions group =
    map (λ m. negate m.amount) (keep (λ m. is_kind m.movement fee && ltb_ℤ m.amount (pos 0)) group)

unfoldable pub sum : List ℤ → ℤ
sum [] = pos 0
sum (x ∷ xs) = x +ℤ sum xs

-- `max` of a list that is not empty.
unfoldable pub maximum : ℤ → List ℤ → ℤ
maximum x [] = x
maximum x (y ∷ ys) = max_ℤ x (maximum y ys)

-- The last test of the group rule: there are amounts of both kinds, and the deductions stay below.
unfoldable pub covers : List ℤ → List ℤ → Bool
unfolding sum maximum
covers [] ds = false
covers (x ∷ xs) [] = false
covers (x ∷ xs) (d ∷ ds) = ltb_ℤ (sum (d ∷ ds)) (maximum x xs)

unfoldable pub fees_deducted_from_a_capture_rule : Evidence → Bool
fees_deducted_from_a_capture_rule e =
    if not (is_kind e.subject.movement capture || is_kind e.subject.movement fee)
    then false
    else if any_booked_offset e
    then false
    else let group = unreconciled_group e in
      if not
        (any (λ m. is_kind m.movement capture) group && any (λ m. is_kind m.movement fee) group)
      then false
      else covers (inflows group) (deductions group)

-- `RULES[rule](evidence)`
unfoldable pub fires : Evidence → ClassificationRule → Bool
fires e reversal_of_booked_chargeback = reversal_of_booked_chargeback_rule e
fires e refund_of_booked_capture_across_periods = refund_of_booked_capture_rule e
fires e fees_deducted_from_a_capture = fees_deducted_from_a_capture_rule e
fires e no_rule_matched = false

-- The first loop of `_relate`: each identifier counts once, as it was first seen.
unfoldable pub first_seen : List ℕ → List SettlementMovement → List SettlementMovement
first_seen seen [] = []
first_seen seen (m ∷ ms) =
    let known = first_seen seen ms in
    let new = m ∷ first_seen (m.id ∷ seen) ms in if contains m.id seen then known else new

-- `by_key[(merchant_reference, currency)]`; a movement of no reference has no key.
abbrev pub same_key : Text → Text → SettlementMovement → Option Text → Bool
same_key reference currency m none = false
same_key reference currency m (some r) = text_eq r reference && text_eq m.currency currency

abbrev pub related_by :
    List SettlementMovement → SettlementMovement → Option Text → List SettlementMovement
related_by context subject none = []
related_by context subject (some reference) =
    keep
      (λ m. same_key reference subject.currency m m.merchant_reference && not (m.id == subject.id))
      context

-- `_relate`, for one subject.
unfoldable pub relate : List SettlementMovement → SettlementMovement → Evidence
unfolding first_seen
relate context subject = record {
  subject = subject;
  related = related_by (first_seen [] context) subject subject.merchant_reference;
}

abbrev pub head_or : List ClassificationRule → ClassificationRule → ClassificationRule
head_or [] r = r
head_or (x ∷ xs) r = x

unfoldable pub winner : Evidence → ClassificationRule
winner e = head_or (keep (fires e) rule_precedence) no_rule_matched

unfoldable pub decide : Evidence → Classification
unfolding winner rule_classification
decide e = record {
  line_id = e.subject.id;
  classification = rule_classification (winner e);
  rule_id = winner e;
}

-- `classify`
unfoldable pub classify : List SettlementMovement → List SettlementMovement → List Classification
unfolding relate decide
classify subjects context = map (λ s. decide (relate (context ++ subjects) s)) subjects
