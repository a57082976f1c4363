-- ===== src/Operations/Approval.antt =====
-- operations/approval.py: `record_decision`, on the rows that bear on it. Which of two unique
-- constraints the database finds violated first, the identifier of the new row and its token are
-- arguments; the widths of the texts are left out.
pub mod Decisions
pub mod Tests
use ledger_exception_control.Common.{
  ℕ, none, some, Option, Bool, true, false, List, ◌∷◌, any, not, ◌&&◌, ◌||◌, ◌==◌, if◌then◌else◌,
}
use ledger_exception_control.Control.{TreatmentCode, AuditTool, AuditOutcome}
use ledger_exception_control.Operations.Rows.{Store, Outbox, AuditEvent}
use ledger_exception_control.Operations.Dispatch.{is_in_flight, is_ambiguous, recorded}
use ledger_exception_control.Operations.Recovery.{
  Principal, is_open, may_record_decision, may_authorise, may_edit_treatment,
}
use ledger_exception_control.Common.Int.{ℤ, pos, ltb_ℤ, eq_ℤ}
use ledger_exception_control.Common.Text.{Text, text_eq}

pub data ApprovalDecision : Type 0 where
  approved rejected edited : ApprovalDecision

pub data ApprovalRefusal : Type 0 where
  role_may_not_approve role_may_not_edit self_countersigned_edit token_already_used :
      ApprovalRefusal
  already_decided treatment_inconsistent unknown_subject supersession_blocked : ApprovalRefusal

-- A row of `approval`, and `ApprovalRecord`.
pub record ApprovalRow : Type 0 where
  pub approval_id : ℕ
  pub exception_id : ℕ
  pub resolution_version : ℤ
  pub treatment_proposal_id : Option ℕ
  pub decision : ApprovalDecision
  pub approved_treatment : Option TreatmentCode
  pub principal : Text
  pub requested_by : Option Text
  pub approval_token : Text
  pub decided_at : ℤ

-- An adjustment with the approval that authorised it, and its rows.
pub record PriorOperation : Type 0 where
  pub exception_id : ℕ
  pub resolution_version : ℤ
  pub rows : Store

-- The exceptions, the exception that each proposal belongs to, the approvals, the last one first, the
-- adjustments and the audit events.
pub record Book : Type 0 where
  pub exceptions : List ℕ
  pub proposal_owner : ℕ → Option ℕ
  pub approvals : List ApprovalRow
  pub operations : List PriorOperation
  pub audit : List AuditEvent

pub record DecisionRequest : Type 0 where
  pub approval_id : ℕ
  pub exception_id : ℕ
  pub resolution_version : ℤ
  pub principal : Principal
  pub decision : ApprovalDecision
  pub approval_token : Text
  pub now : ℤ
  pub treatment : Option TreatmentCode
  pub treatment_proposal_id : Option ℕ
  pub requested_by : Option Text

abbrev pub is_edited : ApprovalDecision → Bool
is_edited ApprovalDecision.edited = true
is_edited _ = false

-- `_requires_treatment`, and `_authorises_a_posting`, which says the same.
abbrev pub requires_treatment : ApprovalDecision → Bool
requires_treatment ApprovalDecision.rejected = false
requires_treatment _ = true

abbrev pub authorises_a_posting : ApprovalDecision → Bool
authorises_a_posting ApprovalDecision.rejected = false
authorises_a_posting _ = true

abbrev pub is_some {ℓ} : {A : Type ℓ} → Option A → Bool
is_some none = false
is_some (some x) = true

abbrev pub outcome_is_ambiguous : Option Outbox → Bool
outcome_is_ambiguous none = false
outcome_is_ambiguous (some o) = recorded is_ambiguous o.last_outcome

abbrev pub has_items : Store → Bool
has_items s = any (λ i. true) s.recovery

-- `in_flight | open_recovery | unadjudicated`
abbrev pub is_live : Store → Bool
is_live s =
    any is_in_flight s.attempts
    || (any is_open s.recovery || (outcome_is_ambiguous s.outbox && not (has_items s)))

abbrev pub blocks : ℕ → ℤ → PriorOperation → Bool
blocks exception version op =
    op.exception_id == exception && (ltb_ℤ op.resolution_version version && is_live op.rows)

-- `supersession_is_blocked`, whether there is a blocking operation
unfoldable pub supersession_is_blocked : ℕ → ℤ → List PriorOperation → Bool
supersession_is_blocked exception version operations = any (blocks exception version) operations

abbrev pub owned_by : ℕ → Option ℕ → Bool
owned_by exception none = false
owned_by exception (some owner) = owner == exception

abbrev pub proposal_fits : Book → ℕ → Option ℕ → Bool
proposal_fits b exception none = true
proposal_fits b exception (some proposal) = owned_by exception (b.proposal_owner proposal)

-- The countersignature rule.
abbrev pub check_requester : ApprovalDecision → Text → Option Text → Option ApprovalRefusal
check_requester ApprovalDecision.edited principal none = some ApprovalRefusal.treatment_inconsistent
check_requester ApprovalDecision.edited principal (some requester) =
    if text_eq requester principal then some ApprovalRefusal.self_countersigned_edit else none
check_requester _ principal none = none
check_requester _ principal (some requester) = some ApprovalRefusal.treatment_inconsistent

-- The refusals before the write, in their order.
unfoldable pub refusal_of : Book → DecisionRequest → Option ApprovalRefusal
unfolding may_record_decision may_edit_treatment may_authorise supersession_is_blocked
refusal_of b r =
    if not (may_record_decision r.principal)
    then some ApprovalRefusal.role_may_not_approve
    else if is_edited r.decision && not (may_edit_treatment r.principal)
    then some ApprovalRefusal.role_may_not_edit
    else if authorises_a_posting r.decision && not (may_authorise r.principal)
    then some ApprovalRefusal.role_may_not_approve
    else if requires_treatment r.decision && not (is_some r.treatment)
    then some ApprovalRefusal.treatment_inconsistent
    else if not (requires_treatment r.decision) && is_some r.treatment
    then some ApprovalRefusal.treatment_inconsistent
    else if not (any (λ e. e == r.exception_id) b.exceptions)
    then some ApprovalRefusal.unknown_subject
    else if not (proposal_fits b r.exception_id r.treatment_proposal_id)
    then some ApprovalRefusal.unknown_subject
    else if supersession_is_blocked r.exception_id r.resolution_version b.operations
    then some ApprovalRefusal.supersession_blocked
    else check_requester r.decision r.principal.id r.requested_by

abbrev pub row_of : DecisionRequest → ApprovalRow
row_of r = record {
  approval_id = r.approval_id;
  exception_id = r.exception_id;
  resolution_version = r.resolution_version;
  treatment_proposal_id = r.treatment_proposal_id;
  decision = r.decision;
  approved_treatment = r.treatment;
  principal = r.principal.id;
  requested_by = r.requested_by;
  approval_token = r.approval_token;
  decided_at = r.now;
}

-- How `record_decision` ends: recorded, refused, or by the database's refusal of a version below one.
pub data DecisionEnd : Type 0 where
  decided : ApprovalRow → DecisionEnd
  declined : ApprovalRefusal → DecisionEnd
  version_not_positive : DecisionEnd

abbrev pub token_taken : List ApprovalRow → ApprovalRow → Bool
token_taken rows row = any (λ a. text_eq a.approval_token row.approval_token) rows

abbrev pub version_taken : List ApprovalRow → ApprovalRow → Bool
version_taken rows row =
    any
      (λ a. a.exception_id == row.exception_id && eq_ℤ a.resolution_version row.resolution_version)
      rows

-- The refusal by a unique constraint.
abbrev pub conflict : Bool → Bool → Bool → Option ApprovalRefusal
conflict token_first true true =
    some
      (if token_first then ApprovalRefusal.token_already_used else ApprovalRefusal.already_decided)
conflict token_first true false = some ApprovalRefusal.token_already_used
conflict token_first false true = some ApprovalRefusal.already_decided
conflict token_first false false = none

abbrev pub insert_unless : Book → DecisionRequest → Option ApprovalRefusal → DecisionEnd × Book
insert_unless b r (some refusal) = (declined refusal, b)
insert_unless b r none = (
  decided (row_of r),
  record b {
    approvals = row_of r ∷ b.approvals;
    audit =
        (record {
          tool = AuditTool.approve;
          outcome = AuditOutcome.success;
          occurred_at = r.now;
          principal = some r.principal.id;
        })
        ∷ b.audit;
  },
)

abbrev pub write_unless :
    Bool → Book → DecisionRequest → Option ApprovalRefusal → DecisionEnd × Book
write_unless token_first b r (some refusal) = (declined refusal, b)
write_unless token_first b r none =
    if ltb_ℤ r.resolution_version (pos 1)
    then (version_not_positive, b)
    else insert_unless b r (
        conflict token_first (token_taken b.approvals (row_of r))
          (version_taken b.approvals (row_of r)))

-- `record_decision`
unfoldable pub record_decision : Bool → Book → DecisionRequest → DecisionEnd × Book
unfolding refusal_of
record_decision token_first b r = write_unless token_first b r (refusal_of b r)
