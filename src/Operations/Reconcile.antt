-- ===== src/Operations/Reconcile.antt =====
-- operations/reconcile.py: `reconcile_once` on the rows of one adjustment, where nothing else writes
-- between its transactions. What the adapter is and what it answers is an argument.
pub mod Pass
pub mod Runs
pub mod Conclusions
pub mod Queries
pub mod QueryBound
use ledger_exception_control.Common.{
  ℕ, none, some, Option, Bool, true, false, List, if◌then◌else◌, ◌-◌, ◌∷◌, ◌&&◌, keep, [], max, not,
}
use ledger_exception_control.Control.{OutcomeCode, QueryAnswer}
use ledger_exception_control.Operations.Rows.{
  PostingAttempt, Store, ReconciliationQuery, RecoveryReason,
}
use ledger_exception_control.Operations.Dispatch.{AdapterAnswer, DispatchEnd}
use ledger_exception_control.Operations.Resend.{ResendBound}
use ledger_exception_control.Operations.Recovery.{open_item}
use ledger_exception_control.Ledger.Port.{LedgerAdapterCapabilities, QueryOutcome}
use ledger_exception_control.Ledger.Vocabulary.{QueryConsistency}
use ledger_exception_control.Common.Int.{ℤ, max_ℤ, pos, ◌-ℤ◌, ltb_ℤ, leb_ℤ}
use ledger_exception_control.Common.Text.{Text}

-- What `adapter.get_by_operation_id` does: answer, answer with what is no outcome, or raise.
pub data QueryResponse : Type 0 where
  told : QueryOutcome → QueryResponse
  not_an_outcome query_failed : QueryResponse

-- The adapter, with its capabilities in effect, whether it has the query at all, and what each of
-- its two calls does if it is made.
pub record Adapter : Type 0 where
  pub capabilities : LedgerAdapterCapabilities
  pub endpoint : Option Text
  pub has_query : Bool
  pub query : QueryResponse
  pub post : AdapterAnswer

pub data Resolution : Type 0 where
  confirmed rejected resent unresolved routed_to_recovery : Resolution
  already_in_recovery not_ambiguous : Resolution

pub record ReconciliationPolicy : Type 0 where
  pub consecutive_not_found : ℤ
  pub max_queries : ℤ
  pub sla : ℤ

pub data PolicyError : Type 0 where
  no_evidence too_few_queries sla_elapsed : PolicyError

-- `ReconciliationPolicy.__post_init__`
unfoldable pub check_policy : ReconciliationPolicy → Option PolicyError
check_policy p =
    if ltb_ℤ p.consecutive_not_found (pos 1)
    then some no_evidence
    else if ltb_ℤ p.max_queries p.consecutive_not_found
    then some too_few_queries
    else if leb_ℤ p.sla (pos 0)
    then some sla_elapsed
    else none

pub record ReconciliationReport : Type 0 where
  pub resolution : Resolution
  pub answer : Option QueryAnswer
  pub resend_bound : Option ResendBound
  pub consecutive_not_found : ℕ
  pub queries_made : ℕ
  pub recovery_reason : Option RecoveryReason

-- How a pass ends: with a report, or by an exception: for a missing intent, for a query that fails or
-- answers with what is no outcome, or the one that ends the dispatch.
pub data ReconcileEnd : Type 0 where
  reported : ReconciliationReport → ReconcileEnd
  missing_intent query_unrecognised query_raised : ReconcileEnd
  dispatch_failed : DispatchEnd → ReconcileEnd

unfoldable pub visibility_bound_of : LedgerAdapterCapabilities → ℤ
visibility_bound_of c = elim c.query_consistency [
  | QueryConsistency.linearizable ↦ pos 0
  | QueryConsistency.eventual bound ↦ bound
]

unfoldable pub negative_answer_is_trustworthy : LedgerAdapterCapabilities → ℤ → ℤ → Bool
unfolding visibility_bound_of
negative_answer_is_trustworthy c last_sent_at now =
    let elapsed = now -ℤ last_sent_at in
    leb_ℤ (visibility_bound_of c) elapsed && leb_ℤ c.max_inflight_window elapsed

abbrev later : ℤ → Option ℤ → Option ℤ
later at none = some at
later at (some other) = some (max_ℤ at other)

-- `max(sent_at)`
unfoldable pub last_sent_at : List PostingAttempt → Option ℤ
last_sent_at [] = none
last_sent_at (a ∷ more) = later a.sent_at (last_sent_at more)

-- The endpoint of the first attempt.
abbrev pub original_endpoint : List PostingAttempt → Option Text
original_endpoint [] = none
original_endpoint (a ∷ more) = a.endpoint

abbrev pub is_not_found : QueryAnswer → Bool
is_not_found QueryAnswer.not_found = true
is_not_found _ = false

-- `coalesce(max(query_no), 0)`
unfoldable pub max_query_no : List ReconciliationQuery → ℕ
max_query_no [] = 0
max_query_no (q ∷ more) = max q.query_no (max_query_no more)

-- `_consecutive_not_found`
unfoldable pub consecutive_not_found : List ReconciliationQuery → ℕ
unfolding max_query_no
consecutive_not_found qs =
    max_query_no qs - max_query_no (keep (λ q. not (is_not_found q.answer)) qs)

-- `_State.is_partially_applied`
abbrev pub is_partially_applied : OutcomeCode → Bool
is_partially_applied OutcomeCode.partially_applied = true
is_partially_applied _ = false

abbrev pub after_opening :
    RecoveryReason → ReconciliationReport → Store → Option Store → ReconcileEnd × Store
after_opening reason report s none = (
  reported (record report {
    resolution = Resolution.already_in_recovery;
    recovery_reason = some reason;
  }),
  s,
)
after_opening reason report s (some t) = (
  reported
      (record report { resolution = Resolution.routed_to_recovery; recovery_reason = some reason }),
  t,
)

-- `_route_to_recovery`
unfoldable pub route_to_recovery :
    ℕ
    → RecoveryReason
    → ℤ
    → ReconciliationPolicy
    → ReconciliationReport
    → Store
    → ReconcileEnd × Store
unfolding open_item
route_to_recovery item_id reason now policy report s =
    after_opening reason report s (open_item item_id reason now policy.sla s)
