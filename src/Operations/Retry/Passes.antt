-- ===== src/Operations/Retry/Passes.antt =====
-- How many times the ordinary retry path sends one operation.
use mathlib.Core.Option
use ledger_exception_control.Operations.Retry.{dead_letter}
use ledger_exception_control.Common.{
  ℕ, none, some, Option, List, Bool, any, ◌≡◌, ◌∷◌, ◌<◌, map, arith, false, true, if◌then◌else◌,
  ◌++◌, length, refl, keep, [], ◌&&◌, Bool-cases, not, inl, inr,
}
use ledger_exception_control.Control.{OutcomeCode}
use ledger_exception_control.Operations.Rows.{
  PostingAttempt, Outbox, Store, DeadLetterReason, Envelope, attempts_exhausted,
  time_budget_exhausted,
}
use ledger_exception_control.Ledger.Port.{PostingOutcome, LedgerAdapterCapabilities}
use ledger_exception_control.Operations.Retry.{
  RetryPolicy, resolve_as_not_sent, is_due, retry_or_dead_letter, attempt_one, dead_letter,
  mark_dead, schedule, is_pending, lettered, dead_letter_over, budget_exhausted, first_sent_at,
}
use ledger_exception_control.Operations.Dispatch.{
  max_attempt_no, resolve, is_in_flight, AdapterAnswer, undetermined_state,
}
use ledger_exception_control.Common.Int.{ℤ, pos, ◌≤ℤ◌, ◌<ℤ◌, leb_ℤ}
use ledger_exception_control.Common.Text.{Text}
use ledger_exception_control.Ledger.Transport.{TransportVerdict}

-- A turn of `run_due_once` at one operation: sent if it is due, and else left alone.
pub record Turn : Type 0 where
  pub capabilities : LedgerAdapterCapabilities
  pub now : ℤ
  pub target : Option Text
  pub backoff : ℕ → ℤ
  pub answer : AdapterAnswer

unfoldable pub take_turn : RetryPolicy → Store → Turn → Store
unfolding is_due attempt_one
take_turn policy s k =
    if is_due k.now s
    then (attempt_one k.capabilities policy k.now k.target k.backoff k.answer s).1
    else s

unfoldable pub run_turns : RetryPolicy → Store → List Turn → Store
unfolding take_turn
run_turns policy s [] = s
run_turns policy s (k ∷ ks) = run_turns policy (take_turn policy s k) ks

abbrev pub pending_intent : Option Outbox → Bool
pending_intent none = false
pending_intent (some o) = is_pending o.state

-- Pending, and neither in flight nor ambiguous: what the retry path may select, at some time.
abbrev pub selectable : List PostingAttempt → Option Outbox → Bool
selectable attempts none = false
selectable attempts (some o) = is_pending o.state && not (undetermined_state o attempts)

-- The attempts are numbered from one, are no more than the policy allows, and leave room for one
-- while the operation may be selected; what is pending has no dead letter.
pub record Counted (policy : RetryPolicy) (s : Store) : Type 0 where
  pub numbered : max_attempt_no s.attempts ≡ length s.attempts
  pub within : pos (length s.attempts) ≤ℤ policy.max_attempts
  pub room : selectable s.attempts s.outbox ≡ true → pos (length s.attempts) <ℤ policy.max_attempts
  pub unlettered : pending_intent s.outbox ≡ true → s.dead_letter ≡ none

marked-closed : (o : Option Outbox) → pending_intent (Option.map (mark_dead true) o) ≡ false
marked-closed none = refl
marked-closed (some o) = refl

closed-selectable :
    (attempts : List PostingAttempt) (o : Option Outbox)
    → pending_intent o ≡ false
    → selectable attempts o ≡ false
closed-selectable attempts none h = refl
closed-selectable attempts (some o) h = ground (arith, h)

-- What is no longer pending needs no room.
pub closed-Counted :
    (policy : RetryPolicy) (s : Store)
    → max_attempt_no s.attempts ≡ length s.attempts
    → pos (length s.attempts) ≤ℤ policy.max_attempts
    → pending_intent s.outbox ≡ false
    → Counted policy s
closed-Counted policy s n w p = record {
  numbered = n;
  within = w;
  room = λ h. absurd (cc (h, closed-selectable s.attempts s.outbox p));
  unlettered = λ h. absurd (cc (h, p));
}

-- What is undetermined needs none either.
pub undetermined-Counted :
    (policy : RetryPolicy) (s : Store)
    → max_attempt_no s.attempts ≡ length s.attempts
    → pos (length s.attempts) ≤ℤ policy.max_attempts
    → selectable s.attempts s.outbox ≡ false
    → s.dead_letter ≡ none
    → Counted policy s
undetermined-Counted policy s n w p l = record {
  numbered = n;
  within = w;
  room = λ h. absurd (cc (h, p));
  unlettered = λ h. l;
}

lettered-Counted :
    (policy : RetryPolicy) (reason : DeadLetterReason) (e : Envelope) (n : ℕ) (now : ℤ)
    (transport : Option TransportVerdict) (s : Store)
    → max_attempt_no s.attempts ≡ length s.attempts
    → pos (length s.attempts) ≤ℤ policy.max_attempts
    → s.dead_letter ≡ none
    → Counted policy (lettered reason n transport s (dead_letter reason e n true now s)).1
unfolding dead_letter
lettered-Counted policy reason e n now transport s k w l = rw l (
    closed-Counted policy
      (lettered reason n transport s (dead_letter_over reason e n true now s none)).1 k w
      (marked-closed s.outbox))

-- A retry is scheduled only while the attempts leave room.
pub retry-Counted :
    (policy : RetryPolicy) (now : ℤ) (code : OutcomeCode) (delay : ℤ)
    (transport : Option TransportVerdict) (s : Store)
    → max_attempt_no s.attempts ≡ length s.attempts
    → pos (length s.attempts) ≤ℤ policy.max_attempts
    → s.dead_letter ≡ none
    → Counted policy (retry_or_dead_letter policy now (length s.attempts) code delay transport s).1
unfolding retry_or_dead_letter schedule
retry-Counted policy now code delay transport s k w l =
    elim (Bool-cases (leb_ℤ policy.max_attempts (pos (length s.attempts)))) [
      | inl full ↦
          rw full
            (lettered-Counted policy attempts_exhausted _ (length s.attempts) now transport s k w l)
      | inr free ↦
          elim (Bool-cases (budget_exhausted policy (first_sent_at s.attempts) now delay)) [
            | inl spent ↦
                rw (free, spent)
                  (lettered-Counted policy time_budget_exhausted _ (length s.attempts) now transport
                    s k w l)
            | inr left ↦
                rw (free, left)
                  (record {
                    numbered = k;
                    within = w;
                    room = λ h. ground (arith, free);
                    unlettered = λ h. l;
                  })
          ]
    ]

pub max-snoc :
    (l : List PostingAttempt) (a : PostingAttempt)
    → max_attempt_no l < a.attempt_no
    → max_attempt_no (l ++ a ∷ []) ≡ a.attempt_no
unfolding max_attempt_no
max-snoc [] a h = omega arith
max-snoc (b ∷ l) a h = ground (arith, max-snoc l a)

pub max-map :
    (f : PostingAttempt → PostingAttempt) (l : List PostingAttempt)
    → ((a : PostingAttempt) → (f a).attempt_no ≡ a.attempt_no)
    → max_attempt_no (map f l) ≡ max_attempt_no l
unfolding max_attempt_no
max-map f [] h = refl
max-map f (a ∷ l) h = rw (h a, max-map f l h) refl

pub resolve-number :
    (n : ℕ) (t : ℤ) (outcome : PostingOutcome) (a : PostingAttempt)
    → (resolve n t outcome a).attempt_no ≡ a.attempt_no
resolve-number n t outcome a = ground arith

pub not_sent-number : (a : PostingAttempt) → (resolve_as_not_sent a).attempt_no ≡ a.attempt_no
not_sent-number a = ground arith

keep-none : (l : List PostingAttempt) → any is_in_flight l ≡ false → keep is_in_flight l ≡ []
keep-none [] h = refl
keep-none (a ∷ l) h = ground (arith, keep-none l)

pub keep-snoc :
    (l : List PostingAttempt) (a : PostingAttempt)
    → any is_in_flight l ≡ false
    → is_in_flight a ≡ true
    → keep is_in_flight (l ++ a ∷ []) ≡ a ∷ []
keep-snoc [] a h k = rw k refl
keep-snoc (b ∷ l) a h k = ground (arith, keep-snoc l a)
