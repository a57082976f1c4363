-- ===== src/Operations/Recovery/Tests.antt =====
-- An operation whose answer was lost, reconciled and judged.
use ledger_exception_control.Common.{
  none, some, ℕ, List, [], ◌∷◌, length, ◌≡◌, refl, ◌+◌, arith, true, In, inl,
}
use ledger_exception_control.Control.{AttemptState, QueryAnswer, RecoveryState, RecoveryResolution}
use ledger_exception_control.Operations.Rows.{
  Store, PostingAttempt, ReconciliationQuery, RecoveryItem, RecoveryReason,
}
use ledger_exception_control.Operations.Dispatch.{AdapterAnswer}
use ledger_exception_control.Operations.Recovery.{Role, Principal, resolve_item, check_reference}
use ledger_exception_control.Operations.Reconcile.{
  Adapter, ReconciliationPolicy, told, consecutive_not_found,
}
use ledger_exception_control.Operations.Reconcile.Pass.{reconcile_once}
use ledger_exception_control.Operations.Reconcile.Runs.{run_after, consecutive_not_found-run}
use ledger_exception_control.Operations.Reconcile.Conclusions.{
  EndsJustified, reconcile_once-justified,
}
use ledger_exception_control.Operations.Reconcile.Queries.{Pass, count_unresolved}
use ledger_exception_control.Operations.Reconcile.QueryBound.{count_unresolved-bounded}
use ledger_exception_control.Operations.Recovery.Resolved.{IsResolved, resolve_item-resolved}
use ledger_exception_control.Operations.Steps.{Reachable, start, after, reconcile, resolve}
use ledger_exception_control.Operations.Recovery.Duties.{IsQueue, Reachable-IsQueue}
use ledger_exception_control.Operations.Recovery.Judgements.{Reachable-judgement}
use ledger_exception_control.Operations.Steps.Settled.{IsConstrained}
use ledger_exception_control.Operations.Steps.Constraint.{Reachable-IsConstrained}
use ledger_exception_control.Operations.Tests.{enqueued}
use ledger_exception_control.Ledger.Port.{
  QueryOutcome, LedgerAdapterCapabilities, default_capabilities,
}
use ledger_exception_control.Ledger.Vocabulary.{PostingQueryMode, QueryConsistency}
use ledger_exception_control.Common.Int.{ℤ, pos, ◌≤ℤ◌}
use ledger_exception_control.Common.Text.{codes}

abbrev lost_attempt : PostingAttempt
lost_attempt = record {
  attempt_no = 1;
  sent_at = pos 5;
  endpoint = none;
  state = AttemptState.in_flight;
  outcome = none;
  resolved_at = none;
  posting_ref = none;
}

-- A request was sent and no answer came.
abbrev pub lost : Store
lost = record enqueued { attempts = lost_attempt ∷ [] }

abbrev readable : LedgerAdapterCapabilities
readable = record default_capabilities {
  posting_identity_query = PostingQueryMode.by_operation_id;
  query_consistency = QueryConsistency.linearizable;
  max_inflight_window = pos 100;
}

abbrev ledger_saying : QueryOutcome → Adapter
ledger_saying answer = record {
  capabilities = readable;
  endpoint = none;
  has_query = true;
  query = told answer;
  post = AdapterAnswer.unrecognised;
}

abbrev one_query : ReconciliationPolicy
one_query = record { consecutive_not_found = pos 1; max_queries = pos 2; sla = pos 1000 }

reconcile_once-justified_example :
    EndsJustified
      (ledger_saying QueryOutcome.not_found)
      (pos 500)
      one_query
      none
      lost
      (reconcile_once 1 (ledger_saying QueryOutcome.not_found) (pos 500) one_query none lost)
reconcile_once-justified_example =
    reconcile_once-justified 1 (ledger_saying QueryOutcome.not_found) (pos 500) one_query none lost
      tt

abbrev query_of : ℕ → QueryAnswer → ReconciliationQuery
query_of n answer = record {
  query_no = n;
  queried_at = pos 200;
  answer = answer;
  posting_ref = none;
  detail = none;
  visibility_bound = pos 0;
  max_inflight_window = pos 100;
}

abbrev asked : List ReconciliationQuery
asked =
    query_of 1 QueryAnswer.not_found
    ∷ query_of 2 QueryAnswer.indeterminate
    ∷ query_of 3 QueryAnswer.not_found
    ∷ []

consecutive_not_found-run_example : consecutive_not_found asked ≡ run_after 0 asked
consecutive_not_found-run_example = consecutive_not_found-run asked (refl, (refl, (refl, tt)))

abbrev unsure_pass : ℤ → Pass
unsure_pass now = record {
  item_id = 1;
  adapter = ledger_saying (QueryOutcome.indeterminate (codes "busy"));
  now = now;
  target = none;
}

abbrev passes : List Pass
passes = unsure_pass (pos 200) ∷ unsure_pass (pos 300) ∷ unsure_pass (pos 400) ∷ []

count_unresolved-bounded_example :
    pos (length lost.queries + count_unresolved one_query lost passes) ≤ℤ one_query.max_queries
count_unresolved-bounded_example = count_unresolved-bounded one_query lost passes (tt, omega arith)

abbrev olga : Principal
olga = record { id = codes "olga"; role = Role.operator }

abbrev waiting_item : RecoveryItem
waiting_item = record {
  id = 7;
  state = RecoveryState.open_item;
  reason = RecoveryReason.reconciliation_exhausted;
  opened_at = pos 300;
  sla_due_at = pos 1300;
  approving_principal = codes "ada";
  resolution = none;
  resolved_by = none;
  resolved_at = none;
}

abbrev waiting : Store
waiting = record lost { recovery = waiting_item ∷ [] }

resolve_item-resolved_example :
    IsResolved 7 olga RecoveryResolution.rejected_by_evidence
      (pos 900)
      none
      waiting
      (resolve_item 7 olga RecoveryResolution.rejected_by_evidence (pos 900) none waiting)
resolve_item-resolved_example =
    resolve_item-resolved 7 olga RecoveryResolution.rejected_by_evidence (pos 900) none waiting

abbrev judged : Store
judged = (resolve_item 7 olga RecoveryResolution.rejected_by_evidence (pos 900) none waiting).1

abbrev reconciled : Store
reconciled =
    (reconcile_once 8 (ledger_saying QueryOutcome.not_found) (pos 950) one_query none judged).1

judged_reachable : Reachable waiting judged
judged_reachable =
    after start (resolve 7 olga RecoveryResolution.rejected_by_evidence (pos 900) none waiting)

reconciled_reachable : Reachable judged reconciled
reconciled_reachable =
    after start (reconcile 8 (ledger_saying QueryOutcome.not_found) (pos 950) one_query none judged)

Reachable-IsQueue_example : IsQueue judged.approving_principal judged.recovery
Reachable-IsQueue_example =
    Reachable-IsQueue waiting judged judged_reachable (((refl, tt), tt), omega arith)

abbrev judged_item : RecoveryItem
judged_item = record waiting_item {
  state = RecoveryState.resolved;
  resolution = some RecoveryResolution.rejected_by_evidence;
  resolved_by = some (codes "olga");
  resolved_at = some (pos 900);
}

judged_item-In : In judged_item judged.recovery
unfolding resolve_item check_reference
judged_item-In = inl refl

Reachable-judgement_example : In judged_item reconciled.recovery
Reachable-judgement_example =
    Reachable-judgement judged reconciled judged_item reconciled_reachable refl judged_item-In

Reachable-IsConstrained_example : IsConstrained judged
Reachable-IsConstrained_example = Reachable-IsConstrained waiting judged judged_reachable refl
