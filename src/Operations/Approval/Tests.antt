-- ===== src/Operations/Approval/Tests.antt =====
-- Decisions on one exception, the bytes of two operations, and the text of an amount.
use ledger_exception_control.Common.{
  none, some, List, [], ◌∷◌, ◌≡◌, ◌↔◌, arith, if◌then◌else◌, ◌==◌, true, refl,
}
use ledger_exception_control.Control.{TreatmentCode}
use ledger_exception_control.Operations.Recovery.{Role, Principal}
use ledger_exception_control.Operations.Approval.{
  ApprovalDecision, Book, DecisionRequest, record_decision,
}
use ledger_exception_control.Operations.Approval.Decisions.{
  IsDecided, record_decision-IsDecided, AreSound, run_decisions, run_decisions-AreSound,
}
use ledger_exception_control.Operations.Identity.{Bytes, operation_body, instruction_body}
use ledger_exception_control.Operations.Identity.Framing.{bodies-injective}
use ledger_exception_control.Operations.Recovery.Tests.{lost}
use ledger_exception_control.Common.Int.{ℤ, pos, negsuc}
use ledger_exception_control.Common.Text.{codes}
use ledger_exception_control.Operations.Identity.Amount.{canonical_amount}
use ledger_exception_control.Money.Decimal.{
  Decimal, finite, within_money_scale, below_magnitude_bound,
}

-- The first resolution of exception 4 was approved, and its request is still in flight.
abbrev book : Book
book = record {
  exceptions = 4 ∷ [];
  proposal_owner = λ p. if p == 9 then some 4 else none;
  approvals = [];
  operations = (record { exception_id = 4; resolution_version = pos 1; rows = lost }) ∷ [];
  audit = [];
}

abbrev carla : Principal
carla = record { id = codes "carla"; role = Role.controller }

abbrev edit_request : ℤ → DecisionRequest
edit_request version = record {
  approval_id = 1;
  exception_id = 4;
  resolution_version = version;
  principal = carla;
  decision = ApprovalDecision.edited;
  approval_token = codes "t";
  now = pos 5;
  treatment = some TreatmentCode.rebook;
  treatment_proposal_id = some 9;
  requested_by = some (codes "anna");
}

record_decision-IsDecided_example :
    IsDecided book (edit_request (pos 1)) (record_decision true book (edit_request (pos 1)))
record_decision-IsDecided_example = record_decision-IsDecided true book (edit_request (pos 1))

abbrev requests : List DecisionRequest
requests = edit_request (pos 1) ∷ edit_request (pos 2) ∷ edit_request (pos 1) ∷ []

run_decisions-AreSound_example : AreSound (run_decisions true book requests).approvals
run_decisions-AreSound_example = run_decisions-AreSound true book requests tt

abbrev labels : List (Bytes × Bytes)
labels = (codes "currency", codes "EUR") ∷ (codes "period", codes "2026-01") ∷ []

-- Without the prefixes, the two operations would have one body.
bodies-injective_example :
    ((operation_body (codes "ab") (codes "c") (codes "d")
        ≡ operation_body (codes "a") (codes "bc") (codes "d"))
      ↔ ((codes "ab" ≡ codes "a") × (codes "c" ≡ codes "bc") × (codes "d" ≡ codes "d")))
    × ((instruction_body labels ≡ instruction_body labels) ↔ (labels ≡ labels))
bodies-injective_example =
    bodies-injective (codes "ab") (codes "c") (codes "d") (codes "a") (codes "bc") (codes "d")
      labels labels (omega arith, (omega arith, (omega arith, tt)))
      (omega arith, (omega arith, (omega arith, tt)))
      ((omega arith, omega arith), ((omega arith, omega arith), tt))
      ((omega arith, omega arith), ((omega arith, omega arith), tt))

abbrev refund : Decimal
refund = finite true (1 ∷ 2 ∷ 0 ∷ 4 ∷ 5 ∷ 0 ∷ []) (negsuc 2)

refund_text : canonical_amount refund ≡ some (codes "-120.4500")
unfolding canonical_amount within_money_scale below_magnitude_bound
refund_text = refl
