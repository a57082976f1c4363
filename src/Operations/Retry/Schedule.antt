-- ===== src/Operations/Retry/Schedule.antt =====
-- When a further attempt is scheduled.
use mathlib.Core.Option
use ledger_exception_control.Common.{
  ℕ, none, some, Option, ◌≡◌, List, [], ◌∷◌, length, All, Bool, Bool-cases, if◌then◌else◌, false,
  refl, inl, arith, inr, true, ◌+◌,
}
use ledger_exception_control.Control.{OutcomeCode}
use ledger_exception_control.Operations.Rows.{
  Outbox, Store, PostingAttempt, DeadLetterReason, terminal_rejection, attempts_exhausted,
  time_budget_exhausted,
}
use ledger_exception_control.Ledger.Port.{PostingOutcome, LedgerAdapterCapabilities}
use ledger_exception_control.Operations.Retry.{
  dead_letter, scheduled, attempt_one, retry_or_dead_letter, RetryPolicy, budget_exhausted, earlier,
  is_due, RetryEnd, after_outcome, schedule, after_raise, after_dispatch, after_resolution,
  schedule_at, reported, lettered, attempt_pending, throttled_delay, first_sent_at,
  resolve_not_sent, missing_intent, is_pending, second_dead_letter, unrecognised_outcome,
  RetryVerdict, RetryReport,
}
use ledger_exception_control.Common.Int.{ℤ, ◌-ℤ◌, ◌<ℤ◌, pos, leb_ℤ, ◌+ℤ◌, ltb_ℤ, ◌≤ℤ◌, int_laws}
use ledger_exception_control.Ledger.Transport.{
  TransportVerdict, retryable, classify_transport_failure,
}
use ledger_exception_control.Operations.Dispatch.{
  DispatchEnd, refused, adapter_raised, unrecognised_answer, dispatched, AdapterAnswer,
  max_attempt_no, dispatch_once,
}
use ledger_exception_control.Common.Text.{Text}
use ledger_exception_control.Operations.Retry.Passes.{Turn}
use ledger_exception_control.Operations.Retry.Numbers.{Names, attempt_one-Names}
use ledger_exception_control.Operations.Retry.Progress.{attempt_one-count, terminal_before}

-- The time falls into the budget that runs from the send that the code takes for the first.
abbrev InBudget : RetryPolicy → Option ℤ → ℤ → Type 0
InBudget policy none at = Unit
InBudget policy (some first) at = at -ℤ first <ℤ policy.time_budget

abbrev pub ScheduledFor : ℤ → Option Outbox → Type 0
ScheduledFor at none = Unit
ScheduledFor at (some o) = o.next_attempt_at ≡ some at

-- What the checks of the code establish of a report that a further attempt is scheduled.
abbrev WasScheduled : RetryPolicy → RetryVerdict → RetryReport → Store → Type 0
WasScheduled policy scheduled r t =
    (at : ℤ) × (r.next_attempt_at ≡ some at)
    × ScheduledFor at t.outbox
    × (pos r.attempt_no <ℤ policy.max_attempts)
    × InBudget policy (first_sent_at t.attempts) at
WasScheduled policy _ r t = Unit

abbrev IsReported : RetryPolicy → RetryEnd × Store → Type 0
IsReported policy (reported r, t) = WasScheduled policy r.verdict r t
IsReported policy (missing_intent, t) = Unit
IsReported policy (second_dead_letter, t) = Unit
IsReported policy (unrecognised_outcome, t) = Unit

scheduled_for : (at : ℤ) (o : Option Outbox) → ScheduledFor at (Option.map (schedule_at at) o)
scheduled_for at none = tt
scheduled_for at (some o) = refl

in_budget :
    (policy : RetryPolicy) (first : Option ℤ) (now delay : ℤ)
    → budget_exhausted policy first now delay ≡ false
    → InBudget policy first (now +ℤ delay)
unfolding budget_exhausted
in_budget policy none now delay h = tt
in_budget policy (some first) now delay h = ground (arith, h)

lettered-IsReported :
    (policy : RetryPolicy) (reason : DeadLetterReason) (n : ℕ) (transport : Option TransportVerdict)
    (s : Store) (o : Option Store)
    → IsReported policy (lettered reason n transport s o)
lettered-IsReported policy reason n transport s none = tt
lettered-IsReported policy reason n transport s (some t) = tt

retry-IsReported :
    (policy : RetryPolicy) (now : ℤ) (n : ℕ) (code : OutcomeCode) (delay : ℤ)
    (transport : Option TransportVerdict) (s : Store)
    → IsReported policy (retry_or_dead_letter policy now n code delay transport s)
unfolding retry_or_dead_letter schedule
retry-IsReported policy now n code delay transport s =
    elim (Bool-cases (leb_ℤ policy.max_attempts (pos n))) [
      | inl full ↦ rw full (
          lettered-IsReported policy attempts_exhausted n transport s
            (dead_letter attempts_exhausted _ n true now s))
      | inr free ↦
          elim (Bool-cases (budget_exhausted policy (first_sent_at s.attempts) now delay)) [
            | inl spent ↦
                rw (free, spent)
                  (lettered-IsReported policy time_budget_exhausted n transport s
                    (dead_letter time_budget_exhausted _ n true now s))
            | inr left ↦
                rw (free, left)
                  (
                    now +ℤ delay,
                    refl,
                    scheduled_for (now +ℤ delay) s.outbox,
                    ground (arith, free),
                    in_budget policy (first_sent_at s.attempts) now delay left,
                  )
          ]
    ]

resolution-IsReported :
    (policy : RetryPolicy) (now : ℤ) (backoff : ℕ → ℤ) (n : ℕ) (verdict : TransportVerdict)
    (s : Store) (o : Option (ℕ × Store))
    → IsReported policy (after_resolution policy now backoff n verdict s o)
resolution-IsReported policy now backoff n verdict s none = tt
resolution-IsReported policy now backoff n verdict s (some (m, t)) =
    retry-IsReported policy now m OutcomeCode.not_sent (backoff m) (some verdict) t

outcome-IsReported :
    (policy : RetryPolicy) (now : ℤ) (backoff : ℕ → ℤ) (n : ℕ) (outcome : PostingOutcome)
    (s : Store)
    → IsReported policy (after_outcome policy now backoff n outcome s)
outcome-IsReported policy now backoff n (PostingOutcome.confirmed ref) s = tt
outcome-IsReported policy now backoff n (PostingOutcome.rejected why) s =
    lettered-IsReported policy terminal_rejection n none s
      (dead_letter terminal_rejection _ n false now s)
outcome-IsReported policy now backoff n (PostingOutcome.throttled after) s =
    retry-IsReported policy now n OutcomeCode.throttled
      (throttled_delay (PostingOutcome.throttled after) (backoff n)) none s
outcome-IsReported policy now backoff n (PostingOutcome.unknown detail) s = tt
outcome-IsReported policy now backoff n (PostingOutcome.partially_applied legs refs) s = tt

raise-IsReported :
    (policy : RetryPolicy) (now : ℤ) (backoff : ℕ → ℤ) (n : ℕ) (verdict : TransportVerdict)
    (s : Store)
    → IsReported policy (after_raise policy now backoff n verdict s)
raise-IsReported policy now backoff n verdict s = elim (Bool-cases (retryable verdict)) [
  | inl again ↦ rw again (resolution-IsReported policy now backoff n verdict s (resolve_not_sent s))
  | inr never ↦ rw never tt
]

dispatch-IsReported :
    (policy : RetryPolicy) (now : ℤ) (backoff : ℕ → ℤ) (n : ℕ) (d : DispatchEnd) (s : Store)
    → IsReported policy (after_dispatch policy now backoff n (d, s))
dispatch-IsReported policy now backoff n (refused why) s = tt
dispatch-IsReported policy now backoff n (adapter_raised error) s =
    raise-IsReported policy now backoff n (classify_transport_failure error) s
dispatch-IsReported policy now backoff n unrecognised_answer s = tt
dispatch-IsReported policy now backoff n (dispatched m outcome is_settled) s =
    outcome-IsReported policy now backoff m outcome s

attempt_one-IsReported :
    (c : LedgerAdapterCapabilities) (policy : RetryPolicy) (now : ℤ) (target : Option Text)
    (backoff : ℕ → ℤ) (answer : AdapterAnswer) (s : Store)
    → IsReported policy (attempt_one c policy now target backoff answer s)
unfolding attempt_one
attempt_one-IsReported c policy now target backoff answer s = go s.outbox
  where
    go :
        (o : Option Outbox)
        → IsReported policy (attempt_pending c policy now target backoff answer s o)
    go none = tt
    go (some o) = elim (Bool-cases (is_pending o.state)) [
      | inl p ↦ rw p (
          dispatch-IsReported policy now backoff (max_attempt_no s.attempts + 1)
            (dispatch_once c now target answer s).0 (dispatch_once c now target answer s).1)
      | inr q ↦ rw q tt
    ]

-- A report that a further attempt is scheduled names a time that stands in the intent, fewer attempts
-- than the ceiling have been made, and the time lies within the budget counted from each of their
-- sends, and so from the first.
abbrev pub IsScheduled : RetryPolicy → RetryVerdict → RetryReport → Store → Type 0
IsScheduled policy scheduled r t =
    (at : ℤ) × (r.next_attempt_at ≡ some at)
    × ScheduledFor at t.outbox
    × (pos (length t.attempts) <ℤ policy.max_attempts)
    × All (λ (a : PostingAttempt). at -ℤ a.sent_at <ℤ policy.time_budget) t.attempts
IsScheduled policy _ r t = Unit

abbrev pub KeepsBounds : RetryPolicy → RetryEnd × Store → Type 0
KeepsBounds policy (reported r, t) = IsScheduled policy r.verdict r t
KeepsBounds policy (missing_intent, t) = Unit
KeepsBounds policy (second_dead_letter, t) = Unit
KeepsBounds policy (unrecognised_outcome, t) = Unit

sooner : (at first sent budget : ℤ) → first ≤ℤ sent → at -ℤ first <ℤ budget → at -ℤ sent <ℤ budget
sooner at first sent budget h k = omega (int_laws, h, k)

-- What is in the budget from the earliest send is so from every one.
earlier-InBudget :
    (policy : RetryPolicy) (at sent : ℤ) (o : Option ℤ)
    → InBudget policy (earlier sent o) at
    → (at -ℤ sent <ℤ policy.time_budget) × InBudget policy o at
earlier-InBudget policy at sent none h = (h, tt)
earlier-InBudget policy at sent (some other) h = go (ltb_ℤ other sent) refl h
  where
    go :
        (b : Bool)
        → ltb_ℤ other sent ≡ b
        → at -ℤ (if b then other else sent) <ℤ policy.time_budget
        → (at -ℤ sent <ℤ policy.time_budget) × (at -ℤ other <ℤ policy.time_budget)
    go true before k = (sooner at other sent policy.time_budget (ground (arith, before)) k, k)
    go false after k = (k, sooner at sent other policy.time_budget (ground (arith, after)) k)

first-InBudget :
    (policy : RetryPolicy) (at : ℤ) (attempts : List PostingAttempt)
    → InBudget policy (first_sent_at attempts) at
    → All (λ (a : PostingAttempt). at -ℤ a.sent_at <ℤ policy.time_budget) attempts
unfolding first_sent_at
first-InBudget policy at [] h = tt
first-InBudget policy at (a ∷ more) h =
    let (one, rest) = earlier-InBudget policy at a.sent_at (first_sent_at more) h in
    (one, first-InBudget policy at more rest)

-- With the number of attempts in the place of the number that is reported.
counted-KeepsBounds :
    (policy : RetryPolicy) (n : ℕ) (x : RetryEnd × Store)
    → n ≡ length x.1.attempts
    → Names n x
    → IsReported policy x
    → KeepsBounds policy x
counted-KeepsBounds policy n (missing_intent, t) e m h = tt
counted-KeepsBounds policy n (second_dead_letter, t) e m h = tt
counted-KeepsBounds policy n (unrecognised_outcome, t) e m h = tt
counted-KeepsBounds policy n (reported r, t) e m h = go r.verdict h
  where
    go : (v : RetryVerdict) → WasScheduled policy v r t → IsScheduled policy v r t
    go scheduled (at, named, stored, room, left) =
        (at, named, stored, omega (arith, room, m, e), first-InBudget policy at t.attempts left)
    go _ h = tt

-- Where `attempt_one`, at an operation that is due, of which the attempts are numbered from one and
-- the last outcome is not terminal, reports that a further attempt is scheduled, the intent holds the
-- reported time, fewer attempts than the ceiling have been made, with the one just made among them,
-- and the time lies within the time budget, counted from any of their sends, and so from the first.
pub attempt_one-KeepsBounds :
    (policy : RetryPolicy) (k : Turn) (s : Store)
    → max_attempt_no s.attempts ≡ length s.attempts
    → is_due k.now s ≡ true
    → terminal_before s.outbox ≡ false
    → KeepsBounds policy (attempt_one k.capabilities policy k.now k.target k.backoff k.answer s)
attempt_one-KeepsBounds policy k s numbered due open_intent =
    let count = attempt_one-count policy s k due open_intent in
    counted-KeepsBounds policy (max_attempt_no s.attempts + 1) _ (omega (arith, numbered, count))
      (attempt_one-Names k.capabilities policy k.now k.target k.backoff k.answer s due)
      (attempt_one-IsReported k.capabilities policy k.now k.target k.backoff k.answer s)
