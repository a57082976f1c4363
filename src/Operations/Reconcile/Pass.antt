-- ===== src/Operations/Reconcile/Pass.antt =====
-- operations/reconcile.py: the branches of `reconcile_once`.
use mathlib.Core.Option
use ledger_exception_control.Common.{
  ℕ, none, some, Option, Bool, false, ◌+◌, if◌then◌else◌, ◌++◌, ◌∷◌, [], ◌&&◌, not, any,
}
use ledger_exception_control.Control.{OutcomeCode, QueryAnswer, AuditTool, AuditOutcome}
use ledger_exception_control.Operations.Rows.{
  Outbox, Store, ReconciliationQuery, RecoveryReason, event,
}
use ledger_exception_control.Operations.Dispatch.{
  DispatchEnd, dispatch_once, dispatched, recorded, undetermined_state,
}
use ledger_exception_control.Operations.Resend.{ResendBound, resend_is_within_bounds}
use ledger_exception_control.Operations.Recovery.{settle_as, is_open}
use ledger_exception_control.Operations.Retry.{first_sent_at}
use ledger_exception_control.Operations.Reconcile.{
  Adapter, QueryResponse, Resolution, ReconciliationPolicy, ReconciliationReport, ReconcileEnd,
  reported, missing_intent, query_unrecognised, query_raised, dispatch_failed, route_to_recovery,
  consecutive_not_found, max_query_no, last_sent_at, told, not_an_outcome, query_failed,
  visibility_bound_of, negative_answer_is_trustworthy, original_endpoint, is_partially_applied,
}
use ledger_exception_control.Ledger.Port.{
  LedgerAdapterCapabilities, QueryOutcome, suppresses_duplicates, queryable_by_operation_id,
}
use ledger_exception_control.Common.Int.{ℤ, leb_ℤ, pos}
use ledger_exception_control.Common.Text.{Text}

abbrev pub answer_code : QueryOutcome → QueryAnswer
answer_code (QueryOutcome.found ref) = QueryAnswer.found
answer_code QueryOutcome.not_found = QueryAnswer.not_found
answer_code (QueryOutcome.indeterminate detail) = QueryAnswer.indeterminate

abbrev pub answer_ref : QueryOutcome → Option Text
answer_ref (QueryOutcome.found ref) = some ref
answer_ref _ = none

abbrev pub answer_detail : QueryOutcome → Option Text
answer_detail (QueryOutcome.indeterminate detail) = some detail
answer_detail _ = none

-- `_ANSWER_AUDIT_OUTCOME`
abbrev pub answer_audit_outcome : QueryAnswer → AuditOutcome
answer_audit_outcome QueryAnswer.found = AuditOutcome.success
answer_audit_outcome _ = AuditOutcome.quarantined

abbrev pub new_query : LedgerAdapterCapabilities → ℤ → ℕ → QueryOutcome → ReconciliationQuery
new_query c now query_no answer = record {
  query_no = query_no;
  queried_at = now;
  answer = answer_code answer;
  posting_ref = answer_ref answer;
  detail = answer_detail answer;
  visibility_bound = visibility_bound_of c;
  max_inflight_window = c.max_inflight_window;
}

-- The answer is on record before anything is concluded from it.
unfoldable pub with_answer : LedgerAdapterCapabilities → ℤ → QueryOutcome → Store → Store
with_answer c now answer s = record s {
  queries = s.queries ++ new_query c now (max_query_no s.queries + 1) answer ∷ [];
  audit = event AuditTool.reconcile (answer_audit_outcome (answer_code answer)) now ∷ s.audit;
}

-- The two conclusions, each with the event of `_emit_resolution`.
unfoldable pub conclude_confirmed : ℤ → Text → Store → Store
conclude_confirmed now ref s = record s {
  outbox = Option.map (settle_as OutcomeCode.confirmed) s.outbox;
  posting_ref = some ref;
  audit = event AuditTool.reconcile AuditOutcome.success now ∷ s.audit;
}

unfoldable pub conclude_rejected : ℤ → Store → Store
conclude_rejected now s = record s {
  outbox = Option.map (settle_as OutcomeCode.rejected) s.outbox;
  audit = event AuditTool.reconcile AuditOutcome.failure now ∷ s.audit;
}

abbrev pub trustworthy_since : LedgerAdapterCapabilities → Option ℤ → ℤ → Bool
trustworthy_since c none now = false
trustworthy_since c (some sent) now = negative_answer_is_trustworthy c sent now

-- `_State.is_ambiguous`
abbrev pub is_ambiguous_operation : Store → Outbox → Bool
is_ambiguous_operation s o = undetermined_state o s.attempts

abbrev pub query_report : QueryAnswer → ℕ → Store → ReconciliationReport
query_report answer made s = record {
  resolution = Resolution.unresolved;
  answer = some answer;
  resend_bound = none;
  consecutive_not_found = consecutive_not_found s.queries;
  queries_made = made;
  recovery_reason = none;
}

-- The end of `_reconcile_by_query`: the bound on the queries holds for each answer that concludes
-- nothing.
unfoldable pub unresolved_pass :
    ℕ → ℤ → ReconciliationPolicy → ReconciliationReport → Store → ReconcileEnd × Store
unfolding route_to_recovery
unresolved_pass item_id now policy report s =
    if leb_ℤ policy.max_queries (pos report.queries_made)
    then route_to_recovery item_id RecoveryReason.reconciliation_exhausted now policy report s
    else (reported report, s)

-- `s` is the store with the answer on record.
unfoldable pub conclude :
    ℕ
    → LedgerAdapterCapabilities
    → ℤ
    → ReconciliationPolicy
    → ℕ
    → QueryOutcome
    → Store
    → ReconcileEnd × Store
unfolding conclude_confirmed conclude_rejected unresolved_pass
conclude item_id c now policy made (QueryOutcome.found ref) s =
    let report = query_report QueryAnswer.found made s in
    (reported (record report { resolution = Resolution.confirmed }), conclude_confirmed now ref s)
conclude item_id c now policy made QueryOutcome.not_found s =
    let report = query_report QueryAnswer.not_found made s in
    if leb_ℤ policy.consecutive_not_found (pos (consecutive_not_found s.queries))
      && trustworthy_since c (last_sent_at s.attempts) now
    then (reported (record report { resolution = Resolution.rejected }), conclude_rejected now s)
    else unresolved_pass item_id now policy report s
conclude item_id c now policy made (QueryOutcome.indeterminate detail) s =
    let report = query_report QueryAnswer.indeterminate made s in
    unresolved_pass item_id now policy report s

abbrev pub after_query :
    ℕ
    → LedgerAdapterCapabilities
    → ℤ
    → ReconciliationPolicy
    → Store
    → QueryResponse
    → ReconcileEnd × Store
after_query item_id c now policy s (told answer) =
    conclude item_id c now policy (max_query_no s.queries + 1) answer (with_answer c now answer s)
after_query item_id c now policy s not_an_outcome = (query_unrecognised, s)
after_query item_id c now policy s query_failed = (query_raised, s)

abbrev pub base_report : Store → ReconciliationReport
base_report s = record {
  resolution = Resolution.unresolved;
  answer = none;
  resend_bound = none;
  consecutive_not_found = 0;
  queries_made = max_query_no s.queries;
  recovery_reason = none;
}

-- `_reconcile_by_query`
unfoldable pub reconcile_by_query :
    ℕ → Adapter → ℤ → ReconciliationPolicy → Store → ReconcileEnd × Store
unfolding conclude with_answer route_to_recovery
reconcile_by_query item_id a now policy s =
    if leb_ℤ policy.max_queries (pos (max_query_no s.queries))
    then route_to_recovery item_id RecoveryReason.reconciliation_exhausted now policy
        (base_report s) s
    else after_query item_id a.capabilities now policy s a.query

abbrev pub after_resend : ReconciliationReport → DispatchEnd × Store → ReconcileEnd × Store
after_resend report (dispatched n outcome is_settled, s) =
    (reported (record report { resolution = Resolution.resent }), s)
after_resend report (failure, s) = (dispatch_failed failure, s)

-- The branch of a re-send, by the bound that holds.
abbrev pub resend_by_bound :
    ℕ → Adapter → ℤ → ReconciliationPolicy → Store → ResendBound → ReconcileEnd × Store
resend_by_bound item_id a now policy s ResendBound.permitted =
    after_resend (record (base_report s) { resend_bound = some ResendBound.permitted })
      (dispatch_once a.capabilities now a.endpoint a.post s)
resend_by_bound item_id a now policy s ResendBound.window_expired =
    route_to_recovery item_id RecoveryReason.resend_window_expired now policy
      (record (base_report s) { resend_bound = some ResendBound.window_expired }) s
resend_by_bound item_id a now policy s bound =
    route_to_recovery item_id RecoveryReason.resend_scope_unproven now policy
      (record (base_report s) { resend_bound = some bound }) s

abbrev pub target_of : Option Text → Adapter → Option Text
target_of none a = a.endpoint
target_of (some requested) a = some requested

-- The three branches of capability, for an ambiguous operation that no operator holds.
abbrev pub by_capability :
    ℕ → Adapter → ℤ → ReconciliationPolicy → Option Text → Store → ReconcileEnd × Store
by_capability item_id a now policy requested s =
    if queryable_by_operation_id a.capabilities && a.has_query
    then reconcile_by_query item_id a now policy s
    else if suppresses_duplicates a.capabilities
    then resend_by_bound item_id a now policy s (
        resend_is_within_bounds a.capabilities (first_sent_at s.attempts) now
          (original_endpoint s.attempts) (target_of requested a))
    else route_to_recovery item_id RecoveryReason.no_suppression_or_query now policy
        (record (base_report s) { resend_bound = some ResendBound.not_enforced }) s

abbrev pub reconcile_intent :
    ℕ
    → Adapter
    → ℤ
    → ReconciliationPolicy
    → Option Text
    → Store
    → Option Outbox
    → ReconcileEnd × Store
reconcile_intent item_id a now policy requested s none = (missing_intent, s)
reconcile_intent item_id a now policy requested s (some o) =
    if not (is_ambiguous_operation s o)
    then (reported (record (base_report s) { resolution = Resolution.not_ambiguous }), s)
    else if any is_open s.recovery
    then (reported (record (base_report s) { resolution = Resolution.already_in_recovery }), s)
    else if recorded is_partially_applied o.last_outcome
    then route_to_recovery item_id RecoveryReason.partially_applied now policy (base_report s) s
    else by_capability item_id a now policy requested s

-- `reconcile_once`
unfoldable pub reconcile_once :
    ℕ → Adapter → ℤ → ReconciliationPolicy → Option Text → Store → ReconcileEnd × Store
unfolding reconcile_by_query route_to_recovery dispatch_once
reconcile_once item_id a now policy requested s =
    reconcile_intent item_id a now policy requested s s.outbox
