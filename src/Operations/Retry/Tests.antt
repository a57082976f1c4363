-- ===== src/Operations/Retry/Tests.antt =====
-- Turns, replays and delays on concrete operations.
use ledger_exception_control.Common.{none, some, List, [], ◌∷◌, length, ◌≡◌, refl, arith, true}
use ledger_exception_control.Control.{OutcomeCode, DispatchState, ReplayState}
use ledger_exception_control.Operations.Rows.{Store, DeadLetter, attempts_exhausted}
use ledger_exception_control.Operations.Dispatch.{AdapterAnswer, answered, max_attempt_no}
use ledger_exception_control.Operations.Retry.{RetryPolicy, attempt_one, first_sent_at, is_due}
use ledger_exception_control.Operations.Retry.Passes.{Turn, Counted, run_turns, take_turn}
use ledger_exception_control.Operations.Retry.Schedule.{KeepsBounds, attempt_one-KeepsBounds}
use ledger_exception_control.Operations.Replay.{replay_dead_letter}
use ledger_exception_control.Operations.Replay.Grounds.{IsReplayed, replay_dead_letter-grounded}
use ledger_exception_control.Ledger.Port.{PostingOutcome, default_capabilities}
use ledger_exception_control.Common.Int.{ℤ, pos, ◌-ℤ◌, ◌+ℤ◌}
use ledger_exception_control.Common.Text.{codes}
use ledger_exception_control.Operations.Tests.{enqueued}
use ledger_exception_control.Operations.Retry.Progress.{take_turn-sends}

abbrev pub three_attempts : RetryPolicy
three_attempts = record { max_attempts = pos 3; time_budget = pos 1000 }

abbrev pub throttled_answer : AdapterAnswer
throttled_answer = answered (PostingOutcome.throttled (pos 7))

abbrev pub turn_at : ℤ → Turn
turn_at now = record {
  capabilities = default_capabilities;
  now = now;
  target = none;
  backoff = λ n. pos 2;
  answer = throttled_answer;
}

abbrev turns : List Turn
turns = turn_at (pos 5) ∷ turn_at (pos 20) ∷ turn_at (pos 40) ∷ turn_at (pos 60) ∷ []

pub enqueued-Counted : Counted three_attempts enqueued
unfolding max_attempt_no
enqueued-Counted = record {
  numbered = refl;
  within = omega arith;
  room = λ h. omega arith;
  unlettered = λ h. refl;
}

-- Three of the four turns send, and the third one ends in a dead letter.
three_sends : length (run_turns three_attempts enqueued turns).attempts ≡ 3
unfolding run_turns max_attempt_no first_sent_at ◌-ℤ◌ ◌+ℤ◌
three_sends = refl

enqueued_due : is_due (pos 5) enqueued ≡ true
unfolding is_due
enqueued_due = refl

attempt_one-KeepsBounds_example : KeepsBounds three_attempts (
    attempt_one default_capabilities three_attempts
      (pos 5)
      none
      (λ n. pos 2)
      throttled_answer
      enqueued)
attempt_one-KeepsBounds_example =
    attempt_one-KeepsBounds three_attempts (turn_at (pos 5)) enqueued enqueued-Counted.numbered
      enqueued_due refl

abbrev exhausted_letter : DeadLetter
exhausted_letter = record {
  envelope = record {
    attempt_no = 3;
    last_outcome = OutcomeCode.throttled;
    transport = none;
    first_sent_at = some (pos 5);
  };
  reason = attempts_exhausted;
  attempts = 3;
  replay_state = ReplayState.pending;
  replayed_at = none;
}

abbrev dead : Store
dead = record enqueued {
  outbox = some (record {
    state = DispatchState.dead_lettered;
    last_outcome = some OutcomeCode.throttled;
    attempt_count = 3;
    next_attempt_at = none;
  });
  dead_letter = some exhausted_letter;
}

abbrev confirming : AdapterAnswer
confirming = answered (PostingOutcome.confirmed (codes "R"))

replay_dead_letter-grounded_example :
    IsReplayed confirming
      (pos 90)
      dead
      (replay_dead_letter default_capabilities (pos 90) none confirming (codes "olga") dead)
replay_dead_letter-grounded_example =
    replay_dead_letter-grounded default_capabilities (pos 90) none confirming (codes "olga") dead

take_turn-sends_example : length (take_turn three_attempts enqueued (turn_at (pos 5))).attempts ≡ 1
take_turn-sends_example =
    take_turn-sends three_attempts enqueued (turn_at (pos 5)) enqueued_due refl
