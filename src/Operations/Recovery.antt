-- ===== src/Operations/Recovery.antt =====
-- operations/recovery.py: `open_item` and `resolve_item`, on the rows of one adjustment, with the
-- roles of security.py. The text of the evidence procedure is left out; the fresh identifier of an
-- item is an argument.
pub mod Duties
pub mod Judgements
pub mod Resolved
pub mod Tests
use ledger_exception_control.Common.{
  ℕ, none, some, Option, Bool, true, false, leb, all, ◌∷◌, if◌then◌else◌, List, ◌||◌, ◌&&◌, ◌==◌,
  any, not, ltb, [], ◌++◌, length,
}
use ledger_exception_control.Control.{
  OutcomeCode, DispatchState, RecoveryState, RecoveryResolution, AuditTool, AuditOutcome,
}
use ledger_exception_control.Operations.Rows.{Outbox, Store, RecoveryItem, RecoveryReason, event}
use ledger_exception_control.Common.Int.{ℤ, leb_ℤ, ◌+ℤ◌}
use ledger_exception_control.Common.Text.{Text, text_eq, is_blank}

pub data Role : Type 0 where
  analyst controller operator : Role

-- Membership in `AUTHORISATION_ROLES` and in `EDIT_ROLES`.
abbrev pub is_controller : Role → Bool
is_controller Role.controller = true
is_controller _ = false

-- Membership in `DECISION_ROLES`.
abbrev pub is_decision_role : Role → Bool
is_decision_role Role.analyst = true
is_decision_role Role.controller = true
is_decision_role _ = false

-- Membership in `OPERATIONS_ROLES`.
abbrev pub is_operations_role : Role → Bool
is_operations_role Role.operator = true
is_operations_role _ = false

pub record Principal : Type 0 where
  pub id : Text
  pub role : Role

unfoldable pub may_record_decision : Principal → Bool
may_record_decision p = is_decision_role p.role

unfoldable pub may_authorise : Principal → Bool
may_authorise p = is_controller p.role

unfoldable pub may_edit_treatment : Principal → Bool
may_edit_treatment p = is_controller p.role

unfoldable pub may_work_operations_queues : Principal → Bool
may_work_operations_queues p = is_operations_role p.role

abbrev pub is_open : RecoveryItem → Bool
is_open i = elim i.state [ RecoveryState.open_item ↦ true | RecoveryState.resolved ↦ false ]

abbrev pub new_item : ℕ → RecoveryReason → ℤ → ℤ → Text → RecoveryItem
new_item item_id reason opened_at sla approver = record {
  id = item_id;
  state = RecoveryState.open_item;
  reason = reason;
  opened_at = opened_at;
  sla_due_at = opened_at +ℤ sla;
  approving_principal = approver;
  resolution = none;
  resolved_by = none;
  resolved_at = none;
}

-- `open_item`; `none` where the index on open items refuses the second one of an adjustment.
unfoldable pub open_item : ℕ → RecoveryReason → ℤ → ℤ → Store → Option Store
open_item item_id reason opened_at sla s =
    if any is_open s.recovery
    then none
    else some (record s {
      recovery = s.recovery ++ new_item item_id reason opened_at sla s.approving_principal ∷ [];
      audit = event AuditTool.recover AuditOutcome.quarantined opened_at ∷ s.audit;
    })

pub data RecoveryRefusal : Type 0 where
  role_may_not_recover approver_may_not_resolve already_resolved : RecoveryRefusal
  confirmed_without_reference reference_without_confirmation unknown_item : RecoveryRefusal

pub record RecoveryView : Type 0 where
  pub id : ℕ
  pub reason : RecoveryReason
  pub opened_at : ℤ
  pub sla_due_at : ℤ
  pub approving_principal : Text
  pub overdue : Bool

abbrev pub view : RecoveryItem → ℤ → RecoveryView
view i now = record {
  id = i.id;
  reason = i.reason;
  opened_at = i.opened_at;
  sla_due_at = i.sla_due_at;
  approving_principal = i.approving_principal;
  overdue = leb_ℤ i.sla_due_at now;
}

abbrev pub max_posting_ref : ℕ
max_posting_ref = 128

-- `_check_reference`
unfoldable pub check_reference : RecoveryResolution → Option Text → Option RecoveryRefusal
check_reference RecoveryResolution.confirmed_by_evidence none = some confirmed_without_reference
check_reference RecoveryResolution.confirmed_by_evidence (some ref) =
    if is_blank ref || ltb max_posting_ref (length ref)
    then some confirmed_without_reference
    else none
check_reference _ none = none
check_reference _ (some ref) = some reference_without_confirmation

-- `_RESOLUTION_AUDIT_OUTCOME`
abbrev pub resolution_audit_outcome : RecoveryResolution → AuditOutcome
resolution_audit_outcome RecoveryResolution.confirmed_by_evidence = AuditOutcome.success
resolution_audit_outcome RecoveryResolution.rejected_by_evidence = AuditOutcome.failure
resolution_audit_outcome RecoveryResolution.resolved_unverified = AuditOutcome.abstained

-- What a verified resolution settles the intent as.
abbrev pub settled_code : RecoveryResolution → Option OutcomeCode
settled_code RecoveryResolution.confirmed_by_evidence = some OutcomeCode.confirmed
settled_code RecoveryResolution.rejected_by_evidence = some OutcomeCode.rejected
settled_code RecoveryResolution.resolved_unverified = none

abbrev pub settle_as : OutcomeCode → Outbox → Outbox
settle_as code o = record o { state = DispatchState.settled; last_outcome = some code }

abbrev pub or_before : Option Text → Option Text → Option Text
or_before none before = before
or_before (some ref) before = some ref

abbrev pub settle_intent_as : OutcomeCode → Option Text → Store → Option Outbox → Option Store
settle_intent_as code ref s none = none
settle_intent_as code ref s (some o) =
    some (record s { outbox = some (settle_as code o); posting_ref = or_before ref s.posting_ref })

abbrev pub settle_by_evidence : Option OutcomeCode → Option Text → Store → Option Store
settle_by_evidence none ref s = some s
settle_by_evidence (some code) ref s = settle_intent_as code ref s s.outbox

abbrev pub find_item : ℕ → List RecoveryItem → Option RecoveryItem
find_item item_id [] = none
find_item item_id (i ∷ more) = if i.id == item_id then some i else find_item item_id more

abbrev pub judge : Text → RecoveryResolution → ℤ → RecoveryItem → RecoveryItem
judge principal resolution now i = record i {
  state = RecoveryState.resolved;
  resolution = some resolution;
  resolved_by = some principal;
  resolved_at = some now;
}

-- The item with the identifier is rewritten.
abbrev pub rewrite_item : ℕ → (RecoveryItem → RecoveryItem) → List RecoveryItem → List RecoveryItem
rewrite_item item_id f [] = []
rewrite_item item_id f (i ∷ more) =
    if i.id == item_id then f i ∷ more else i ∷ rewrite_item item_id f more

-- How `resolve_item` ends: with a view of the item, refused, or by the exception for an intent that
-- is missing.
pub data RecoveryEnd : Type 0 where
  recovered : RecoveryView → RecoveryEnd
  recovery_refused : RecoveryRefusal → RecoveryEnd
  intent_gone : RecoveryEnd

abbrev pub after_evidence :
    ℕ → Text → RecoveryResolution → ℤ → RecoveryItem → Store → Option Store → RecoveryEnd × Store
after_evidence item_id principal resolution now i s none = (intent_gone, s)
after_evidence item_id principal resolution now i s (some t) = (
  recovered (view i now),
  record t {
    recovery = rewrite_item item_id (judge principal resolution now) t.recovery;
    audit =
        (record {
          tool = AuditTool.recover;
          outcome = resolution_audit_outcome resolution;
          occurred_at = now;
          principal = some principal;
        })
        ∷ t.audit;
  },
)

abbrev pub resolve_found :
    ℕ
    → Text
    → RecoveryResolution
    → ℤ
    → Option Text
    → Store
    → Option RecoveryItem
    → RecoveryEnd × Store
resolve_found item_id principal resolution now ref s none = (recovery_refused unknown_item, s)
resolve_found item_id principal resolution now ref s (some i) =
    if not (is_open i)
    then (recovery_refused already_resolved, s)
    else if text_eq principal i.approving_principal
    then (recovery_refused approver_may_not_resolve, s)
    else after_evidence item_id principal resolution now i s
        (settle_by_evidence (settled_code resolution) ref s)

abbrev pub after_check :
    ℕ
    → Text
    → RecoveryResolution
    → ℤ
    → Option Text
    → Store
    → Option RecoveryRefusal
    → RecoveryEnd × Store
after_check item_id principal resolution now ref s (some refusal) = (recovery_refused refusal, s)
after_check item_id principal resolution now ref s none =
    resolve_found item_id principal resolution now ref s (find_item item_id s.recovery)

-- `resolve_item`
unfoldable pub resolve_item :
    ℕ → Principal → RecoveryResolution → ℤ → Option Text → Store → RecoveryEnd × Store
unfolding check_reference
resolve_item item_id principal resolution now ref s =
    if not (is_operations_role principal.role)
    then (recovery_refused role_may_not_recover, s)
    else after_check item_id principal.id resolution now ref s (check_reference resolution ref)
