-- ===== src/Operations/Retry.antt =====
-- operations/retry.py: selection, the two bounds, dead letters and `attempt_one`. The delay that
-- `backoff_delay` draws for an attempt number is an argument of what uses it; see its Backoff.
pub mod Passes
pub mod Turns
pub mod Numbers
pub mod Schedule
pub mod Progress
pub mod Backoff
pub mod Tests
use mathlib.Core.Option
use ledger_exception_control.Common.{
  ℕ, none, some, if◌then◌else◌, List, max, Bool, Option, false, true, not, keep, ◌∷◌, [], ◌&&◌, map,
  ◌+◌,
}
use ledger_exception_control.Control.{
  OutcomeCode, AttemptState, DispatchState, ReplayState, AuditTool, AuditOutcome,
}
use ledger_exception_control.Operations.Rows.{
  PostingAttempt, Outbox, Store, event, DeadLetterReason, Envelope, DeadLetter, terminal_rejection,
  attempts_exhausted, time_budget_exhausted,
}
use ledger_exception_control.Ledger.Port.{PostingOutcome, LedgerAdapterCapabilities}
use ledger_exception_control.Ledger.Transport.{
  TransportVerdict, retryable, classify_transport_failure,
}
use ledger_exception_control.Operations.Dispatch.{
  dispatch_once, is_in_flight, DispatchEnd, refused, AdapterAnswer, max_attempt_no, adapter_raised,
  posting_audit_outcome, undetermined_state, dispatched, unrecognised_answer,
}
use ledger_exception_control.Common.Int.{ℤ, max_ℤ, leb_ℤ, ltb_ℤ, ◌+ℤ◌, pos, ◌-ℤ◌}
use ledger_exception_control.Common.Text.{Text}

-- The bounds of `RetryPolicy`; the base, the multiplier and the cap stand in Backoff.
pub record RetryPolicy : Type 0 where
  pub max_attempts : ℤ
  pub time_budget : ℤ

pub data RetryVerdict : Type 0 where
  scheduled dead_lettered settled held : RetryVerdict

pub record RetryReport : Type 0 where
  pub verdict : RetryVerdict
  pub attempt_no : ℕ
  pub next_attempt_at : Option ℤ
  pub reason : Option DeadLetterReason
  pub transport : Option TransportVerdict

-- How `attempt_one` ends: with a report, or by the exception for a row that is missing, for a
-- second dead letter, or for an answer that is no outcome.
pub data RetryEnd : Type 0 where
  reported : RetryReport → RetryEnd
  missing_intent second_dead_letter unrecognised_outcome : RetryEnd

abbrev pub is_pending : DispatchState → Bool
is_pending DispatchState.pending = true
is_pending _ = false

-- `next_attempt_at IS NULL OR next_attempt_at <= now`
abbrev pub schedule_reached : ℤ → Option ℤ → Bool
schedule_reached now none = true
schedule_reached now (some at) = leb_ℤ at now

abbrev pub due_intent : ℤ → List PostingAttempt → Option Outbox → Bool
due_intent now attempts none = false
due_intent now attempts (some o) =
    is_pending o.state
    && (schedule_reached now o.next_attempt_at && not (undetermined_state o attempts))

-- The condition of `due_adjustments` on one operation.
unfoldable pub is_due : ℤ → Store → Bool
is_due now s = due_intent now s.attempts s.outbox

abbrev min_ℤ : ℤ → ℤ → ℤ
min_ℤ a b = if ltb_ℤ b a then b else a

abbrev pub earlier : ℤ → Option ℤ → Option ℤ
earlier at none = some at
earlier at (some other) = some (min_ℤ at other)

-- `_first_sent_at`: the least of the send times.
unfoldable pub first_sent_at : List PostingAttempt → Option ℤ
first_sent_at [] = none
first_sent_at (a ∷ more) = earlier a.sent_at (first_sent_at more)

-- `_budget_exhausted`
unfoldable pub budget_exhausted : RetryPolicy → Option ℤ → ℤ → ℤ → Bool
budget_exhausted policy none now delay = false
budget_exhausted policy (some first) now delay = leb_ℤ policy.time_budget (now +ℤ delay -ℤ first)

abbrev pub mark_dead : Bool → Outbox → Outbox
mark_dead mark_state o =
    if mark_state then (record o { state = DispatchState.dead_lettered }) else o

-- The transaction of `dead_letter`, or `none` where an envelope is there already and the insertion
-- fails.
abbrev pub dead_letter_over :
    DeadLetterReason → Envelope → ℕ → Bool → ℤ → Store → Option DeadLetter → Option Store
dead_letter_over reason envelope attempts mark_state at s (some earlier_letter) = none
dead_letter_over reason envelope attempts mark_state at s none = some (record s {
  outbox = Option.map (mark_dead mark_state) s.outbox;
  dead_letter = some (record {
    envelope = envelope;
    reason = reason;
    attempts = attempts;
    replay_state = ReplayState.pending;
    replayed_at = none;
  });
  audit = event AuditTool.dlq AuditOutcome.failure at ∷ s.audit;
})

unfoldable pub dead_letter : DeadLetterReason → Envelope → ℕ → Bool → ℤ → Store → Option Store
dead_letter reason envelope attempts mark_state at s =
    dead_letter_over reason envelope attempts mark_state at s s.dead_letter

abbrev pub schedule_at : ℤ → Outbox → Outbox
schedule_at at o = record o { next_attempt_at = some at }

-- `_schedule`
unfoldable pub schedule : ℤ → ℤ → Store → Store
schedule at now s = record s {
  outbox = Option.map (schedule_at at) s.outbox;
  audit = event AuditTool.retry AuditOutcome.quarantined now ∷ s.audit;
}

-- The report of a dead letter, and the store it leaves.
abbrev pub lettered :
    DeadLetterReason → ℕ → Option TransportVerdict → Store → Option Store → RetryEnd × Store
lettered reason attempt_no transport s none = (second_dead_letter, s)
lettered reason attempt_no transport s (some t) = (
  reported (record {
    verdict = dead_lettered;
    attempt_no = attempt_no;
    next_attempt_at = none;
    reason = some reason;
    transport = transport;
  }),
  t,
)

-- `_retry_or_dead_letter`
unfoldable pub retry_or_dead_letter :
    RetryPolicy → ℤ → ℕ → OutcomeCode → ℤ → Option TransportVerdict → Store → RetryEnd × Store
unfolding budget_exhausted dead_letter schedule
retry_or_dead_letter policy now attempt_no last_outcome delay transport s =
    let first = first_sent_at s.attempts in
    let envelope : Envelope = record {
      attempt_no = attempt_no;
      last_outcome = last_outcome;
      transport = transport;
      first_sent_at = first;
    } in
    if leb_ℤ policy.max_attempts (pos attempt_no)
    then lettered attempts_exhausted attempt_no transport s
        (dead_letter attempts_exhausted envelope attempt_no true now s)
    else if budget_exhausted policy first now delay
    then lettered time_budget_exhausted attempt_no transport s
        (dead_letter time_budget_exhausted envelope attempt_no true now s)
    else (
      reported (record {
        verdict = scheduled;
        attempt_no = attempt_no;
        next_attempt_at = some (now +ℤ delay);
        reason = none;
        transport = transport;
      }),
      schedule (now +ℤ delay) now s,
    )

abbrev pub resolve_as_not_sent : PostingAttempt → PostingAttempt
resolve_as_not_sent a =
    if is_in_flight a
    then (record a {
      state = AttemptState.resolved;
      outcome = some OutcomeCode.not_sent;
      resolved_at = some a.sent_at;
    })
    else a

abbrev pub not_sent_intent : ℕ → Outbox → Outbox
not_sent_intent attempt_no o = record o {
  last_outcome = some OutcomeCode.not_sent;
  attempt_count = max o.attempt_count attempt_no;
}

-- `_resolve_not_sent`, on the attempts in flight: it declines unless there is exactly one.
abbrev pub resolve_not_sent_of : List PostingAttempt → Store → Option (ℕ × Store)
resolve_not_sent_of [] s = none
resolve_not_sent_of (a ∷ []) s = some (
  a.attempt_no,
  record s {
    outbox = Option.map (not_sent_intent a.attempt_no) s.outbox;
    attempts = map resolve_as_not_sent s.attempts;
    audit = event AuditTool.post (posting_audit_outcome OutcomeCode.not_sent) a.sent_at ∷ s.audit;
  },
)
resolve_not_sent_of (a ∷ b ∷ more) s = none

unfoldable pub resolve_not_sent : Store → Option (ℕ × Store)
resolve_not_sent s = resolve_not_sent_of (keep is_in_flight s.attempts) s

abbrev pub held_at : ℕ → Option TransportVerdict → RetryEnd
held_at attempt_no transport = reported (record {
  verdict = held;
  attempt_no = attempt_no;
  next_attempt_at = none;
  reason = none;
  transport = transport;
})

-- `_throttled_delay`
unfoldable pub throttled_delay : PostingOutcome → ℤ → ℤ
throttled_delay (PostingOutcome.throttled retry_after) jittered = max_ℤ retry_after jittered
throttled_delay _ jittered = jittered

-- The branches of `attempt_one` after an exception that the classifier lets be retried.
abbrev pub after_resolution :
    RetryPolicy → ℤ → (ℕ → ℤ) → ℕ → TransportVerdict → Store → Option (ℕ × Store) → RetryEnd × Store
after_resolution policy now backoff attempt_no verdict s none =
    (held_at attempt_no (some verdict), s)
after_resolution policy now backoff attempt_no verdict s (some (resolved, t)) =
    retry_or_dead_letter policy now resolved OutcomeCode.not_sent (backoff resolved) (some verdict)
      t

abbrev pub after_raise : RetryPolicy → ℤ → (ℕ → ℤ) → ℕ → TransportVerdict → Store → RetryEnd × Store
after_raise policy now backoff attempt_no verdict s =
    if not (retryable verdict)
    then (held_at attempt_no (some verdict), s)
    else after_resolution policy now backoff attempt_no verdict s (resolve_not_sent s)

-- The branches after an outcome.
abbrev pub after_outcome : RetryPolicy → ℤ → (ℕ → ℤ) → ℕ → PostingOutcome → Store → RetryEnd × Store
after_outcome policy now backoff attempt_no (PostingOutcome.confirmed ref) s = (
  reported (record {
    verdict = settled;
    attempt_no = attempt_no;
    next_attempt_at = none;
    reason = none;
    transport = none;
  }),
  s,
)
after_outcome policy now backoff attempt_no (PostingOutcome.rejected refusal) s =
    lettered terminal_rejection attempt_no none s (
      dead_letter terminal_rejection
        (record {
          attempt_no = attempt_no;
          last_outcome = OutcomeCode.rejected;
          transport = none;
          first_sent_at = first_sent_at s.attempts;
        })
        attempt_no false now s)
after_outcome policy now backoff attempt_no (PostingOutcome.throttled retry_after) s =
    retry_or_dead_letter policy now attempt_no OutcomeCode.throttled
      (throttled_delay (PostingOutcome.throttled retry_after) (backoff attempt_no)) none s
after_outcome policy now backoff attempt_no _ s = (held_at attempt_no none, s)

abbrev pub after_dispatch : RetryPolicy → ℤ → (ℕ → ℤ) → ℕ → DispatchEnd × Store → RetryEnd × Store
after_dispatch policy now backoff attempt_no (refused why, s) = (held_at attempt_no none, s)
after_dispatch policy now backoff attempt_no (adapter_raised error, s) =
    after_raise policy now backoff attempt_no (classify_transport_failure error) s
after_dispatch policy now backoff attempt_no (unrecognised_answer, s) = (unrecognised_outcome, s)
after_dispatch policy now backoff attempt_no (dispatched n outcome is_settled, s) =
    after_outcome policy now backoff n outcome s

abbrev pub attempt_pending :
    LedgerAdapterCapabilities
    → RetryPolicy
    → ℤ
    → Option Text
    → (ℕ → ℤ)
    → AdapterAnswer
    → Store
    → Option Outbox
    → RetryEnd × Store
attempt_pending c policy now target backoff answer s none = (missing_intent, s)
attempt_pending c policy now target backoff answer s (some o) =
    let attempt_no = max_attempt_no s.attempts + 1 in
    if not (is_pending o.state)
    then (held_at attempt_no none, s)
    else after_dispatch policy now backoff attempt_no (dispatch_once c now target answer s)

-- `attempt_one`
unfoldable pub attempt_one :
    LedgerAdapterCapabilities
    → RetryPolicy
    → ℤ
    → Option Text
    → (ℕ → ℤ)
    → AdapterAnswer
    → Store
    → RetryEnd × Store
unfolding dispatch_once retry_or_dead_letter resolve_not_sent throttled_delay
attempt_one c policy now target backoff answer s =
    attempt_pending c policy now target backoff answer s s.outbox
