-- ===== src/Classification/Tests.antt =====
-- A reversed chargeback, with the booked chargeback among its related movements.
use mathlib.Core.List.Permᴰ
use ledger_exception_control.Control.{ExceptionClassification}
use ledger_exception_control.Common.{
  ◌∷◌, some, none, ◌≡◌, [], true, ◌++◌, refl, false, Distinct-determines,
}
use ledger_exception_control.Classification.Engine.{
  SettlementMovement, Evidence, winner, classify, fires, reversal_of_booked_chargeback_rule,
  booked_offsets_of_type, refund_of_booked_capture_rule, fees_deducted_from_a_capture_rule,
  unreconciled_group,
}
use mathlib.Core.List.{Permᴰ}
use ledger_exception_control.Classification.Rules.{Explains, winner-Explains}
use ledger_exception_control.Common.Date.{Date}
use ledger_exception_control.Classification.Order.{Identified, classify-perm}
use ledger_exception_control.Classification.Taxonomy.{
  chargeback_reversal, reversal_of_booked_chargeback, chargeback, no_rule_matched,
}
use ledger_exception_control.Common.Text.{codes}
use ledger_exception_control.Common.Int.{pos, negsuc, negate}

abbrev march : Date
march = record { year = 2026; month = 3; day = 2 }

abbrev booked : SettlementMovement
booked = record {
  id = 1;
  merchant_reference = some (codes "M-1");
  movement = some chargeback;
  amount = negsuc 499;
  currency = codes "EUR";
  value_date = march;
  matched = true;
}

abbrev residual : SettlementMovement
residual = record {
  id = 2;
  merchant_reference = some (codes "M-1");
  movement = some chargeback_reversal;
  amount = pos 500;
  currency = codes "EUR";
  value_date = march;
  matched = false;
}

abbrev unreferenced : SettlementMovement
unreferenced = record {
  id = 3;
  merchant_reference = none;
  movement = some chargeback_reversal;
  amount = pos 500;
  currency = codes "EUR";
  value_date = march;
  matched = false;
}

abbrev evidence : Evidence
evidence = record { subject = residual; related = booked ∷ [] }

winner-Explains_example : Explains evidence (winner evidence)
winner-Explains_example = winner-Explains evidence

classified :
    classify (residual ∷ unreferenced ∷ []) (booked ∷ [])
    ≡ (record {
      line_id = 2;
      classification = ExceptionClassification.chargeback_reversal;
      rule_id = reversal_of_booked_chargeback;
    })
      ∷ (record {
        line_id = 3;
        classification = ExceptionClassification.unclassified;
        rule_id = no_rule_matched;
      })
      ∷ []
unfolding classify fires reversal_of_booked_chargeback_rule refund_of_booked_capture_rule
    fees_deducted_from_a_capture_rule booked_offsets_of_type unreconciled_group negate
classified = refl

identified : Identified ((booked ∷ []) ++ (residual ∷ unreferenced ∷ []))
identified m n i j e =
    Distinct-determines (λ x. x.id) m n (booked ∷ residual ∷ unreferenced ∷ [])
      (refl, (refl, (refl, tt))) i j e

classify-perm_example :
    Permᴰ
      (classify (residual ∷ unreferenced ∷ []) (booked ∷ []))
      (classify (unreferenced ∷ residual ∷ []) (booked ∷ []))
classify-perm_example = classify-perm (Permᴰ.swap refl refl) (Permᴰ.refl (booked ∷ [])) identified
