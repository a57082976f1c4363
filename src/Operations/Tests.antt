-- ===== src/Operations/Tests.antt =====
-- Dispatches of one adjustment through an adapter that declares nothing.
use ledger_exception_control.Ledger.Vocabulary.{
  IdempotencyMode, IdempotencyWindow, IdempotencyScope,
}
use ledger_exception_control.Common.{
  none, some, true, false, length, List, ◌≡◌, [], refl, ◌≤◌, ◌+◌, ◌∷◌,
}
use ledger_exception_control.Control.{DispatchState}
use ledger_exception_control.Ledger.Port.{
  PostingOutcome, default_capabilities, suppresses_duplicates, queryable_by_operation_id,
  LedgerAdapterCapabilities,
}
use ledger_exception_control.Operations.Resend.{
  ResendBound, resend_is_within_bounds, resend_decision,
}
use ledger_exception_control.Operations.Dispatch.Sends.{
  Call, run_calls, written, budget, throttles, run_calls-sends,
}
use ledger_exception_control.Operations.Dispatch.{
  AdapterAnswer, write_ahead, max_attempt_no, answered, gate, fresh_attempt,
}
use ledger_exception_control.Operations.Rows.{PostingAttempt, Outbox, Store}
use ledger_exception_control.Common.Int.{pos, ◌-ℤ◌}
use ledger_exception_control.Common.Text.{codes}
use ledger_exception_control.Operations.Dispatch.Bounded.{gate-bounded}

abbrev pub pending_intent : Outbox
pending_intent = record {
  state = DispatchState.pending;
  last_outcome = none;
  attempt_count = 0;
  next_attempt_at = none;
}

abbrev pub enqueued : Store
enqueued = record {
  outbox = some pending_intent;
  posting_ref = none;
  approving_principal = codes "ada";
  attempts = [];
  dead_letter = none;
  queries = [];
  recovery = [];
  audit = [];
}

abbrev call_of : AdapterAnswer → Call
call_of answer = record { sent_at = pos 5; target = none; answer = answer }

abbrev calls : List Call
calls =
    call_of (answered (PostingOutcome.throttled (pos 1)))
    ∷ call_of (answered (PostingOutcome.unknown (codes "lost")))
    ∷ call_of (answered (PostingOutcome.confirmed (codes "R")))
    ∷ []

undeclared : suppresses_duplicates default_capabilities ≡ false
unfolding suppresses_duplicates
undeclared = refl

run_calls-sends_example :
    length (run_calls default_capabilities enqueued calls).attempts
    ≤ length enqueued.attempts + budget enqueued + throttles calls
run_calls-sends_example = run_calls-sends default_capabilities enqueued calls undeclared

-- The third call is refused, for the second one was answered `Unknown`.
two_sends : length (run_calls default_capabilities enqueued calls).attempts ≡ 2
unfolding run_calls max_attempt_no resend_decision suppresses_duplicates queryable_by_operation_id
two_sends = refl

written_run : write_ahead 1 (pos 5) none enqueued ≡ some (written 1 (pos 5) none enqueued)
unfolding write_ahead
written_run = refl

-- A ledger that keeps each key for ten microseconds, wherever it is sent.
abbrev enforcing : LedgerAdapterCapabilities
enforcing = record default_capabilities {
  idempotency = IdempotencyMode.enforces_key;
  idempotency_window = IdempotencyWindow.bounded (pos 10);
  idempotency_scope = IdempotencyScope.global;
}

abbrev in_flight_attempts : List PostingAttempt
in_flight_attempts = fresh_attempt 1 (pos 5) none ∷ []

resend_cleared : gate enforcing (pos 6) none in_flight_attempts (some pending_intent) ≡ none
unfolding gate resend_decision suppresses_duplicates resend_is_within_bounds ◌-ℤ◌
resend_cleared = refl

gate-bounded_example :
    (suppresses_duplicates enforcing ≡ true)
    × ((first : PostingAttempt) × (more : List PostingAttempt) × (in_flight_attempts ≡ first ∷ more)
        × (resend_is_within_bounds enforcing (some first.sent_at) (pos 6) first.endpoint none
            ≡ ResendBound.permitted))
gate-bounded_example =
    gate-bounded enforcing (pos 6) none in_flight_attempts pending_intent resend_cleared refl
