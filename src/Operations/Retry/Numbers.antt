-- ===== src/Operations/Retry/Numbers.antt =====
-- operations/retry.py: which attempt the report of `attempt_one` names.
use ledger_exception_control.Common.{
  ℕ, none, some, Option, any, ◌≡◌, false, true, arith, refl, ◌+◌, Bool-cases, inl, inr,
}
use ledger_exception_control.Control.{OutcomeCode}
use ledger_exception_control.Operations.Rows.{
  Outbox, Store, DeadLetterReason, terminal_rejection, attempts_exhausted, time_budget_exhausted,
}
use ledger_exception_control.Ledger.Port.{PostingOutcome, LedgerAdapterCapabilities}
use ledger_exception_control.Operations.Retry.{
  RetryPolicy, RetryEnd, reported, dead_letter, resolve_not_sent, after_raise, after_dispatch,
  retry_or_dead_letter, throttled_delay, after_outcome, lettered, due_intent, attempt_pending,
  is_due, is_pending, first_sent_at, attempt_one, schedule, budget_exhausted,
}
use ledger_exception_control.Operations.Dispatch.Sends.{written}
use ledger_exception_control.Operations.Dispatch.{
  is_in_flight, max_attempt_no, AdapterAnswer, fresh_attempt, after_send, answered, raised,
  unrecognised, dispatch_once, write_ahead, RefusalReason, after_gate, gate,
}
use ledger_exception_control.Operations.Retry.Passes.{keep-snoc}
use ledger_exception_control.Common.Int.{ℤ, leb_ℤ, pos}
use ledger_exception_control.Common.Text.{Text}
use ledger_exception_control.Ledger.Transport.{
  TransportVerdict, classify_transport_failure, retryable,
}
use ledger_exception_control.Operations.Dispatch.Records.{beyond_max}

-- A report names the attempt of this number.
abbrev pub Names : ℕ → RetryEnd × Store → Type 0
Names n (reported r, t) = r.attempt_no ≡ n
Names n (_, t) = Unit

lettered-Names :
    (reason : DeadLetterReason) (n : ℕ) (transport : Option TransportVerdict) (s : Store)
    (o : Option Store)
    → Names n (lettered reason n transport s o)
lettered-Names reason n transport s none = tt
lettered-Names reason n transport s (some t) = refl

retry-Names :
    (policy : RetryPolicy) (now : ℤ) (n : ℕ) (code : OutcomeCode) (delay : ℤ)
    (transport : Option TransportVerdict) (s : Store)
    → Names n (retry_or_dead_letter policy now n code delay transport s)
unfolding retry_or_dead_letter schedule
retry-Names policy now n code delay transport s =
    elim (Bool-cases (leb_ℤ policy.max_attempts (pos n))) [
      | inl full ↦ rw full (
          lettered-Names attempts_exhausted n transport s
            (dead_letter attempts_exhausted _ n true now s))
      | inr free ↦
          elim (Bool-cases (budget_exhausted policy (first_sent_at s.attempts) now delay)) [
            | inl spent ↦
                rw (free, spent)
                  (lettered-Names time_budget_exhausted n transport s
                    (dead_letter time_budget_exhausted _ n true now s))
            | inr left ↦ rw (free, left) refl
          ]
    ]

outcome-Names :
    (policy : RetryPolicy) (now : ℤ) (backoff : ℕ → ℤ) (n : ℕ) (outcome : PostingOutcome)
    (s : Store)
    → Names n (after_outcome policy now backoff n outcome s)
outcome-Names policy now backoff n (PostingOutcome.confirmed ref) s = refl
outcome-Names policy now backoff n (PostingOutcome.rejected why) s =
    lettered-Names terminal_rejection n none s (dead_letter terminal_rejection _ n false now s)
outcome-Names policy now backoff n (PostingOutcome.throttled after) s =
    retry-Names policy now n OutcomeCode.throttled
      (throttled_delay (PostingOutcome.throttled after) (backoff n)) none s
outcome-Names policy now backoff n (PostingOutcome.unknown detail) s = refl
outcome-Names policy now backoff n (PostingOutcome.partially_applied legs refs) s = refl

-- Where no attempt was in flight, the one written ahead is the only one.
module _ (policy : RetryPolicy) (now : ℤ) (target : Option Text) (backoff : ℕ → ℤ) (s : Store)
    (idle : any is_in_flight s.attempts ≡ false) where
  abbrev n : ℕ
  n = max_attempt_no s.attempts + 1

  raise-Names :
      (verdict : TransportVerdict)
      → Names n (after_raise policy now backoff n verdict (written n now target s))
  unfolding resolve_not_sent
  raise-Names verdict = elim (Bool-cases (retryable verdict)) [
    | inl yes_retry ↦
        rw (yes_retry, keep-snoc s.attempts (fresh_attempt n now target) idle refl)
          (retry-Names policy now n OutcomeCode.not_sent (backoff n) (some verdict) _)
    | inr no_retry ↦ rw no_retry refl
  ]

  sent-Names :
      (answer : AdapterAnswer)
      → Names n
          (after_dispatch policy now backoff n (after_send n now answer (written n now target s)))
  sent-Names (answered outcome) = outcome-Names policy now backoff n outcome _
  sent-Names unrecognised = tt
  sent-Names (raised error) = raise-Names (classify_transport_failure error)

  gated-Names :
      (answer : AdapterAnswer) (o : Option RefusalReason)
      → Names n (after_dispatch policy now backoff n (after_gate now target answer s o))
  unfolding write_ahead
  gated-Names answer (some why) = refl
  gated-Names answer none = rw (beyond_max n s.attempts (omega arith)) (sent-Names answer)

pending-Names :
    (c : LedgerAdapterCapabilities) (policy : RetryPolicy) (now : ℤ) (target : Option Text)
    (backoff : ℕ → ℤ) (answer : AdapterAnswer) (s : Store) (o : Option Outbox)
    → due_intent now s.attempts o ≡ true
    → Names (max_attempt_no s.attempts + 1) (attempt_pending c policy now target backoff answer s o)
unfolding dispatch_once write_ahead
pending-Names c policy now target backoff answer s none h = absurd (cc (h))
pending-Names c policy now target backoff answer s (some o) h =
    let p : is_pending o.state ≡ true = ground (arith, h) in
    let idle : any is_in_flight s.attempts ≡ false = ground (arith, h) in
    rw p
      (gated-Names policy now target backoff s idle answer (gate c now target s.attempts s.outbox))

-- At an operation that is due, the report names the attempt that follows the latest.
pub attempt_one-Names :
    (c : LedgerAdapterCapabilities) (policy : RetryPolicy) (now : ℤ) (target : Option Text)
    (backoff : ℕ → ℤ) (answer : AdapterAnswer) (s : Store)
    → is_due now s ≡ true
    → Names (max_attempt_no s.attempts + 1) (attempt_one c policy now target backoff answer s)
unfolding attempt_one is_due
attempt_one-Names c policy now target backoff answer s h =
    pending-Names c policy now target backoff answer s s.outbox h
