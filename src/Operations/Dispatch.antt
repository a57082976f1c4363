-- ===== src/Operations/Dispatch.antt =====
-- operations/dispatcher.py: `dispatch_once`, on what the database holds of one adjustment. Each of
-- its transactions is a function; the adapter's answer and its capabilities in effect are arguments.
pub mod Bounded
pub mod Sends
pub mod Records
use ledger_exception_control.Common.{
  none, some, Option, Bool, true, false, ℕ, List, any, ◌+◌, ◌∷◌, if◌then◌else◌, ◌==◌, max, ◌||◌,
  ◌++◌, [], map,
}
use ledger_exception_control.Control.{
  OutcomeCode, AttemptState, DispatchState, AuditTool, AuditOutcome,
}
use ledger_exception_control.Operations.Rows.{PostingAttempt, Outbox, Store, event}
use ledger_exception_control.Ledger.Port.{PostingOutcome, LedgerAdapterCapabilities}
use ledger_exception_control.Operations.Resend.{
  ResendDecision, ResendBound, resend_is_within_bounds, resend_decision,
}
use ledger_exception_control.Common.Text.{Text}
use ledger_exception_control.Common.Int.{ℤ}
use ledger_exception_control.Ledger.Transport.{RaisedError}

-- What `adapter.post` does: answer, answer with what is no outcome, or raise.
pub data AdapterAnswer : Type 0 where
  answered : PostingOutcome → AdapterAnswer
  unrecognised : AdapterAnswer
  raised : RaisedError → AdapterAnswer

abbrev pub outcome_code : PostingOutcome → OutcomeCode
outcome_code (PostingOutcome.confirmed ref) = OutcomeCode.confirmed
outcome_code (PostingOutcome.rejected reason) = OutcomeCode.rejected
outcome_code (PostingOutcome.throttled retry_after) = OutcomeCode.throttled
outcome_code (PostingOutcome.unknown detail) = OutcomeCode.unknown
outcome_code (PostingOutcome.partially_applied legs refs) = OutcomeCode.partially_applied

-- Membership in `_TERMINAL` and in `_AMBIGUOUS`.
abbrev pub is_terminal : OutcomeCode → Bool
is_terminal OutcomeCode.confirmed = true
is_terminal OutcomeCode.rejected = true
is_terminal _ = false

abbrev pub is_ambiguous : OutcomeCode → Bool
is_ambiguous OutcomeCode.unknown = true
is_ambiguous OutcomeCode.partially_applied = true
is_ambiguous _ = false

abbrev pub recorded : (OutcomeCode → Bool) → Option OutcomeCode → Bool
recorded test none = false
recorded test (some code) = test code

abbrev pub in_flight_state : AttemptState → Bool
in_flight_state AttemptState.in_flight = true
in_flight_state AttemptState.resolved = false

abbrev pub is_in_flight : PostingAttempt → Bool
is_in_flight a = in_flight_state a.state

-- Why a dispatch is refused, or fails before the send.
pub data RefusalReason : Type 0 where
  no_intent already_terminal : RefusalReason
  undetermined : ResendDecision → RefusalReason
  outside_bounds : ResendBound → RefusalReason
  no_first_attempt attempt_taken : RefusalReason

-- `coalesce(max(attempt_no), 0)`
unfoldable pub max_attempt_no : List PostingAttempt → ℕ
max_attempt_no [] = 0
max_attempt_no (a ∷ more) = max a.attempt_no (max_attempt_no more)

abbrev pub refuse_unless_permitted : ResendBound → Option RefusalReason
refuse_unless_permitted ResendBound.permitted = none
refuse_unless_permitted bound = some (outside_bounds bound)

-- The bound of a permitted re-send, on the first attempt.
abbrev pub check_bounds :
    LedgerAdapterCapabilities → ℤ → Option Text → List PostingAttempt → Option RefusalReason
check_bounds c sent_at target [] = some no_first_attempt
check_bounds c sent_at target (first ∷ more) =
    refuse_unless_permitted
      (resend_is_within_bounds c (some first.sent_at) sent_at first.endpoint target)

abbrev pub check_decision :
    LedgerAdapterCapabilities
    → ℤ
    → Option Text
    → List PostingAttempt
    → ResendDecision
    → Option RefusalReason
check_decision c sent_at target attempts ResendDecision.permitted =
    check_bounds c sent_at target attempts
check_decision c sent_at target attempts decision = some (undetermined decision)

abbrev pub undetermined_state : Outbox → List PostingAttempt → Bool
undetermined_state o attempts = any is_in_flight attempts || recorded is_ambiguous o.last_outcome

-- Transaction 1: the refusal, if there is one.
unfoldable pub gate :
    LedgerAdapterCapabilities
    → ℤ
    → Option Text
    → List PostingAttempt
    → Option Outbox
    → Option RefusalReason
gate c sent_at target attempts none = some no_intent
gate c sent_at target attempts (some o) =
    if recorded is_terminal o.last_outcome
    then some already_terminal
    else if undetermined_state o attempts
    then check_decision c sent_at target attempts (resend_decision c)
    else none

abbrev pub fresh_attempt : ℕ → ℤ → Option Text → PostingAttempt
fresh_attempt attempt_no sent_at target = record {
  attempt_no = attempt_no;
  sent_at = sent_at;
  endpoint = target;
  state = AttemptState.in_flight;
  outcome = none;
  resolved_at = none;
  posting_ref = none;
}

-- Transaction 2: the attempt is written ahead, unless its number is taken.
unfoldable pub write_ahead : ℕ → ℤ → Option Text → Store → Option Store
write_ahead attempt_no sent_at target s =
    if any (λ a. a.attempt_no == attempt_no) s.attempts
    then none
    else some (record s {
      attempts = s.attempts ++ fresh_attempt attempt_no sent_at target ∷ [];
      audit = event AuditTool.post AuditOutcome.quarantined sent_at ∷ s.audit;
    })

-- The reference, if the outcome is `Confirmed`, and else what was there.
abbrev pub reference_of : PostingOutcome → Option Text → Option Text
reference_of (PostingOutcome.confirmed ref) before = some ref
reference_of _ before = before

abbrev pub resolve : ℕ → ℤ → PostingOutcome → PostingAttempt → PostingAttempt
resolve attempt_no sent_at outcome a =
    if a.attempt_no == attempt_no
    then (record a {
      state = AttemptState.resolved;
      outcome = some (outcome_code outcome);
      resolved_at = some sent_at;
      posting_ref = reference_of outcome a.posting_ref;
    })
    else a

abbrev pub settle : ℕ → OutcomeCode → Outbox → Outbox
settle attempt_no code o = record o {
  state = if is_terminal code then DispatchState.settled else o.state;
  last_outcome = some code;
  attempt_count = attempt_no;
}

abbrev pub settle_intent : ℕ → OutcomeCode → Option Outbox → Option Outbox
settle_intent attempt_no code none = none
settle_intent attempt_no code (some o) = some (settle attempt_no code o)

-- `posting_audit_outcome`
unfoldable pub posting_audit_outcome : OutcomeCode → AuditOutcome
posting_audit_outcome OutcomeCode.confirmed = AuditOutcome.success
posting_audit_outcome OutcomeCode.rejected = AuditOutcome.failure
posting_audit_outcome OutcomeCode.throttled = AuditOutcome.failure
posting_audit_outcome OutcomeCode.not_sent = AuditOutcome.failure
posting_audit_outcome OutcomeCode.unknown = AuditOutcome.quarantined
posting_audit_outcome OutcomeCode.partially_applied = AuditOutcome.quarantined

-- Transaction 3: what happened is recorded.
unfoldable pub record_outcome : ℕ → ℤ → PostingOutcome → Store → Store
record_outcome attempt_no sent_at outcome s = record s {
  outbox = settle_intent attempt_no (outcome_code outcome) s.outbox;
  posting_ref = reference_of outcome s.posting_ref;
  attempts = map (resolve attempt_no sent_at outcome) s.attempts;
  audit = event AuditTool.post (posting_audit_outcome (outcome_code outcome)) sent_at ∷ s.audit;
}

-- How a dispatch ends: refused before the send, by an exception of the adapter after it, by the
-- `TypeError` for an answer that is no outcome, or with an outcome and whether it is settled.
pub data DispatchEnd : Type 0 where
  refused : RefusalReason → DispatchEnd
  adapter_raised : RaisedError → DispatchEnd
  unrecognised_answer : DispatchEnd
  dispatched : ℕ → PostingOutcome → Bool → DispatchEnd

abbrev pub after_send : ℕ → ℤ → AdapterAnswer → Store → DispatchEnd × Store
after_send attempt_no sent_at (answered outcome) s = (
  dispatched attempt_no outcome (is_terminal (outcome_code outcome)),
  record_outcome attempt_no sent_at outcome s,
)
after_send attempt_no sent_at unrecognised s = (unrecognised_answer, s)
after_send attempt_no sent_at (raised error) s = (adapter_raised error, s)

abbrev pub after_write : ℕ → ℤ → AdapterAnswer → Store → Option Store → DispatchEnd × Store
after_write attempt_no sent_at answer s none = (refused attempt_taken, s)
after_write attempt_no sent_at answer s (some written) =
    after_send attempt_no sent_at answer written

abbrev pub after_gate :
    ℤ → Option Text → AdapterAnswer → Store → Option RefusalReason → DispatchEnd × Store
after_gate sent_at target answer s (some reason) = (refused reason, s)
after_gate sent_at target answer s none =
    let attempt_no = max_attempt_no s.attempts + 1 in
    after_write attempt_no sent_at answer s (write_ahead attempt_no sent_at target s)

-- `dispatch_once`, where nothing else writes between its transactions.
unfoldable pub dispatch_once :
    LedgerAdapterCapabilities → ℤ → Option Text → AdapterAnswer → Store → DispatchEnd × Store
unfolding gate write_ahead record_outcome
dispatch_once c sent_at target answer s =
    after_gate sent_at target answer s (gate c sent_at target s.attempts s.outbox)
