-- ===== src/Operations/Retry/Progress.antt =====
-- operations/retry.py: that an operation that is due is sent.
use ledger_exception_control.Common.{
  ℕ, none, some, Option, Bool, true, false, List, [], ◌∷◌, ◌≡◌, refl, not, suc, length, keep, ◌+◌,
  arith, if-cases, ◌∙◌,
}
use ledger_exception_control.Control.{OutcomeCode}
use ledger_exception_control.Operations.Rows.{
  Store, Outbox, PostingAttempt, DeadLetter, DeadLetterReason, Envelope, attempts_exhausted,
  time_budget_exhausted, terminal_rejection,
}
use ledger_exception_control.Operations.Dispatch.{
  DispatchEnd, dispatch_once, AdapterAnswer, refused, adapter_raised, unrecognised_answer,
  dispatched, answered, unrecognised, raised, after_send, write_ahead, record_outcome, gate,
  max_attempt_no, is_in_flight, is_terminal, recorded, fresh_attempt, resolve,
}
use ledger_exception_control.Operations.Dispatch.Sends.{written, length-map, length-snoc}
use ledger_exception_control.Operations.Dispatch.Records.{beyond_max}
use ledger_exception_control.Operations.Retry.{
  RetryPolicy, dead_letter, dead_letter_over, attempt_one, resolve_not_sent, resolve_not_sent_of,
  resolve_as_not_sent, schedule, lettered, retry_or_dead_letter, after_resolution, after_raise,
  after_outcome, after_dispatch, attempt_pending, is_pending, budget_exhausted, is_due, due_intent,
  first_sent_at, throttled_delay, RetryEnd,
}
use ledger_exception_control.Operations.Retry.Passes.{Turn, take_turn}
use ledger_exception_control.Ledger.Port.{LedgerAdapterCapabilities, PostingOutcome}
use ledger_exception_control.Ledger.Transport.{
  TransportVerdict, retryable, classify_transport_failure,
}
use ledger_exception_control.Common.Int.{ℤ, pos, leb_ℤ}
use ledger_exception_control.Common.Text.{Text}

-- Whether the intent holds a terminal outcome.
abbrev pub terminal_before : Option Outbox → Bool
terminal_before none = false
terminal_before (some o) = recorded is_terminal o.last_outcome

-- How many attempts there are.
abbrev count : Store → ℕ
count s = length s.attempts

lettered-count :
    (reason : DeadLetterReason) (e : Envelope) (n : ℕ) (mark : Bool) (now : ℤ)
    (transport : Option TransportVerdict) (s : Store)
    → count (lettered reason n transport s (dead_letter reason e n mark now s)).1 ≡ count s
unfolding dead_letter
lettered-count reason e n mark now transport s = go s.dead_letter
  where
    go :
        (o : Option DeadLetter)
        → count (lettered reason n transport s (dead_letter_over reason e n mark now s o)).1
          ≡ count s
    go none = refl
    go (some earlier) = refl

retry-count :
    (policy : RetryPolicy) (now : ℤ) (n : ℕ) (code : OutcomeCode) (delay : ℤ)
    (transport : Option TransportVerdict) (s : Store)
    → count (retry_or_dead_letter policy now n code delay transport s).1 ≡ count s
unfolding retry_or_dead_letter schedule
retry-count policy now n code delay transport s =
    let e : Envelope = record {
      attempt_no = n;
      last_outcome = code;
      transport = transport;
      first_sent_at = first_sent_at s.attempts;
    } in
    if-cases (λ (r : RetryEnd × Store). count r.1 ≡ count s) (leb_ℤ policy.max_attempts (pos n))
      (λ full. lettered-count attempts_exhausted e n true now transport s)
      (λ free.
        if-cases (λ (r : RetryEnd × Store). count r.1 ≡ count s)
          (budget_exhausted policy (first_sent_at s.attempts) now delay)
          (λ spent. lettered-count time_budget_exhausted e n true now transport s) (λ left. refl))

raise-count :
    (policy : RetryPolicy) (now : ℤ) (backoff : ℕ → ℤ) (n : ℕ) (verdict : TransportVerdict)
    (s : Store)
    → count (after_raise policy now backoff n verdict s).1 ≡ count s
unfolding resolve_not_sent
raise-count policy now backoff n verdict s =
    if-cases (λ (r : RetryEnd × Store). count r.1 ≡ count s) (not (retryable verdict))
      (λ never. refl) (λ again. go (keep is_in_flight s.attempts))
  where
    go :
        (l : List PostingAttempt)
        → count (after_resolution policy now backoff n verdict s (resolve_not_sent_of l s)).1
          ≡ count s
    go [] = refl
    go (a ∷ []) =
        retry-count policy now a.attempt_no OutcomeCode.not_sent (backoff a.attempt_no)
          (some verdict) _
        ∙ length-map resolve_as_not_sent s.attempts
    go (a ∷ b ∷ more) = refl

outcome-count :
    (policy : RetryPolicy) (now : ℤ) (backoff : ℕ → ℤ) (n : ℕ) (outcome : PostingOutcome)
    (s : Store)
    → count (after_outcome policy now backoff n outcome s).1 ≡ count s
outcome-count policy now backoff n (PostingOutcome.confirmed ref) s = refl
outcome-count policy now backoff n (PostingOutcome.rejected why) s =
    lettered-count terminal_rejection
      (record {
        attempt_no = n;
        last_outcome = OutcomeCode.rejected;
        transport = none;
        first_sent_at = first_sent_at s.attempts;
      })
      n false now none s
outcome-count policy now backoff n (PostingOutcome.throttled wait) s =
    retry-count policy now n OutcomeCode.throttled
      (throttled_delay (PostingOutcome.throttled wait) (backoff n)) none s
outcome-count policy now backoff n (PostingOutcome.unknown detail) s = refl
outcome-count policy now backoff n (PostingOutcome.partially_applied legs refs) s = refl

dispatch-count :
    (policy : RetryPolicy) (now : ℤ) (backoff : ℕ → ℤ) (n : ℕ) (d : DispatchEnd) (s : Store)
    → count (after_dispatch policy now backoff n (d, s)).1 ≡ count s
dispatch-count policy now backoff n (refused why) s = refl
dispatch-count policy now backoff n (adapter_raised error) s =
    raise-count policy now backoff n (classify_transport_failure error) s
dispatch-count policy now backoff n unrecognised_answer s = refl
dispatch-count policy now backoff n (dispatched m outcome is_settled) s =
    outcome-count policy now backoff m outcome s

due-gate :
    (c : LedgerAdapterCapabilities) (now : ℤ) (target : Option Text) (l : List PostingAttempt)
    (o : Option Outbox)
    → due_intent now l o ≡ true
    → terminal_before o ≡ false
    → gate c now target l o ≡ none
unfolding gate
due-gate c now target l none h t = absurd (cc (h))
due-gate c now target l (some o) h t = ground (arith, h, t)

sent-count :
    (n : ℕ) (now : ℤ) (target : Option Text) (answer : AdapterAnswer) (s : Store)
    → count (after_send n now answer (written n now target s)).1 ≡ suc (count s)
unfolding record_outcome
sent-count n now target (answered outcome) s =
    length-map (resolve n now outcome) (written n now target s).attempts
    ∙ length-snoc s.attempts (fresh_attempt n now target)
sent-count n now target unrecognised s = length-snoc s.attempts (fresh_attempt n now target)
sent-count n now target (raised error) s = length-snoc s.attempts (fresh_attempt n now target)

due_dispatch-count :
    (c : LedgerAdapterCapabilities) (now : ℤ) (target : Option Text) (answer : AdapterAnswer)
    (s : Store)
    → gate c now target s.attempts s.outbox ≡ none
    → count (dispatch_once c now target answer s).1 ≡ suc (count s)
unfolding dispatch_once write_ahead
due_dispatch-count c now target answer s g =
    let free = beyond_max (max_attempt_no s.attempts + 1) s.attempts (omega arith) in
    rw (g, free) (sent-count (max_attempt_no s.attempts + 1) now target answer s)

pending-count :
    (c : LedgerAdapterCapabilities) (policy : RetryPolicy) (now : ℤ) (target : Option Text)
    (backoff : ℕ → ℤ) (answer : AdapterAnswer) (s : Store) (o : Option Outbox)
    → due_intent now s.attempts o ≡ true
    → count (dispatch_once c now target answer s).1 ≡ suc (count s)
    → count (attempt_pending c policy now target backoff answer s o).1 ≡ suc (count s)
pending-count c policy now target backoff answer s none h e = absurd (cc (h))
pending-count c policy now target backoff answer s (some o) h e =
    let p : is_pending o.state ≡ true = ground (arith, h) in
    let r = dispatch_once c now target answer s in
    rw p (dispatch-count policy now backoff (max_attempt_no s.attempts + 1) r.0 r.1 ∙ e)

pub attempt_one-count :
    (policy : RetryPolicy) (s : Store) (k : Turn)
    → is_due k.now s ≡ true
    → terminal_before s.outbox ≡ false
    → length (attempt_one k.capabilities policy k.now k.target k.backoff k.answer s).1.attempts
      ≡ suc (length s.attempts)
unfolding is_due attempt_one
attempt_one-count policy s k h t =
    pending-count k.capabilities policy k.now k.target k.backoff k.answer s s.outbox h (
      due_dispatch-count k.capabilities k.now k.target k.answer s
        (due-gate k.capabilities k.now k.target s.attempts s.outbox h t))

-- A turn of the retry path at an operation that is due, and whose outcome is not terminal, makes
-- exactly one further attempt, whatever the adapter does and whether the policy then lets it be
-- retried: nothing that is due is left unsent.
pub take_turn-sends :
    (policy : RetryPolicy) (s : Store) (k : Turn)
    → is_due k.now s ≡ true
    → terminal_before s.outbox ≡ false
    → length (take_turn policy s k).attempts ≡ suc (length s.attempts)
unfolding take_turn
take_turn-sends policy s k h t = rw h (attempt_one-count policy s k h t)
