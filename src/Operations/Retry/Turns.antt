-- ===== src/Operations/Retry/Turns.antt =====
-- A turn of the retry path keeps the count of the attempts within the policy.
use mathlib.Core.Option
use ledger_exception_control.Common.{
  ℕ, none, some, List, Option, any, ◌≡◌, false, true, length, arith, refl, map, ◌+◌, sym, ◌∷◌,
  Bool-cases, inl, inr, [], any-append_last,
}
use ledger_exception_control.Control.{OutcomeCode, AuditTool}
use ledger_exception_control.Operations.Rows.{
  PostingAttempt, Outbox, Store, event, terminal_rejection,
}
use ledger_exception_control.Ledger.Port.{PostingOutcome, LedgerAdapterCapabilities}
use ledger_exception_control.Operations.Retry.{
  dead_letter, RetryPolicy, mark_dead, resolve_not_sent, after_raise, after_dispatch,
  retry_or_dead_letter, throttled_delay, after_outcome, not_sent_intent, resolve_as_not_sent,
  lettered, due_intent, attempt_pending, is_due, first_sent_at, dead_letter_over, attempt_one,
}
use ledger_exception_control.Operations.Dispatch.Sends.{written, length-map, length-snoc}
use ledger_exception_control.Operations.Dispatch.{
  is_terminal, is_ambiguous, is_in_flight, max_attempt_no, settle_intent, AdapterAnswer,
  fresh_attempt, record_outcome, after_send, resolve, answered, posting_audit_outcome, raised,
  unrecognised, dispatch_once, write_ahead, RefusalReason, after_gate, gate,
}
use ledger_exception_control.Operations.Retry.Passes.{
  pending_intent, selectable, Counted, retry-Counted, closed-Counted, undetermined-Counted,
  keep-snoc, max-snoc, max-map, not_sent-number, resolve-number, run_turns, take_turn, Turn,
}
use ledger_exception_control.Common.Int.{ℤ, pos, ◌≤ℤ◌, ◌<ℤ◌}
use ledger_exception_control.Common.Text.{Text}
use ledger_exception_control.Ledger.Transport.{
  TransportVerdict, classify_transport_failure, retryable,
}
use mathlib.Core.Path.{subst}
use ledger_exception_control.Operations.Dispatch.Records.{beyond_max}

-- The number may be spelled otherwise than by the length.
retry_at-Counted :
    (policy : RetryPolicy) (now : ℤ) (n : ℕ) (code : OutcomeCode) (delay : ℤ)
    (transport : Option TransportVerdict) (s : Store)
    → n ≡ length s.attempts
    → max_attempt_no s.attempts ≡ length s.attempts
    → pos (length s.attempts) ≤ℤ policy.max_attempts
    → s.dead_letter ≡ none
    → Counted policy (retry_or_dead_letter policy now n code delay transport s).1
retry_at-Counted policy now n code delay transport s e k w l =
    subst (λ m. Counted policy (retry_or_dead_letter policy now m code delay transport s).1) (sym e)
      (retry-Counted policy now code delay transport s k w l)

settled-closed :
    (n : ℕ) (code : OutcomeCode) (o : Option Outbox)
    → is_terminal code ≡ true
    → pending_intent (settle_intent n code o) ≡ false
settled-closed n code none h = refl
settled-closed n code (some o) h = rw h refl

ambiguous-closed :
    (n : ℕ) (code : OutcomeCode) (attempts : List PostingAttempt) (o : Option Outbox)
    → is_ambiguous code ≡ true
    → selectable attempts (settle_intent n code o) ≡ false
ambiguous-closed n code attempts none h = refl
ambiguous-closed n code attempts (some o) h = ground (arith, h)

in_flight-closed :
    (attempts : List PostingAttempt) (o : Option Outbox)
    → any is_in_flight attempts ≡ true
    → selectable attempts o ≡ false
in_flight-closed attempts none h = refl
in_flight-closed attempts (some o) h = ground (arith, h)

unmarked-closed :
    (o : Option Outbox)
    → pending_intent o ≡ false
    → pending_intent (Option.map (mark_dead false) o) ≡ false
unmarked-closed none h = refl
unmarked-closed (some o) h = h

-- A rejection is lettered with the intent left settled.
rejected-Counted :
    (policy : RetryPolicy) (n : ℕ) (now : ℤ) (s : Store)
    → max_attempt_no s.attempts ≡ length s.attempts
    → pos (length s.attempts) ≤ℤ policy.max_attempts
    → s.dead_letter ≡ none
    → pending_intent s.outbox ≡ false
    → Counted policy
        (lettered terminal_rejection n none s (
          dead_letter terminal_rejection
            (record {
              attempt_no = n;
              last_outcome = OutcomeCode.rejected;
              transport = none;
              first_sent_at = first_sent_at s.attempts;
            })
            n
            false
            now
            s)).1
unfolding dead_letter
rejected-Counted policy n now s k w l p = rw l (
    closed-Counted policy
      (lettered terminal_rejection n none s (
        dead_letter_over terminal_rejection
          (record {
            attempt_no = n;
            last_outcome = OutcomeCode.rejected;
            transport = none;
            first_sent_at = first_sent_at s.attempts;
          })
          n false now s none)).1
      k w (unmarked-closed s.outbox p))

-- What holds when the request has been sent: `w` is the store with the attempt written ahead.
module _ (policy : RetryPolicy) (now : ℤ) (target : Option Text) (backoff : ℕ → ℤ) (s : Store)
    (numbered : max_attempt_no s.attempts ≡ length s.attempts)
    (room : pos (length s.attempts) <ℤ policy.max_attempts) (no_letter : s.dead_letter ≡ none)
    (idle : any is_in_flight s.attempts ≡ false) where
  abbrev n : ℕ
  n = max_attempt_no s.attempts + 1

  abbrev w : Store
  w = written n now target s

  w-numbered : max_attempt_no w.attempts ≡ n
  w-numbered = max-snoc s.attempts (fresh_attempt n now target) (omega arith)

  w-length : length w.attempts ≡ n
  w-length =
      let h = length-snoc s.attempts (fresh_attempt n now target) in omega (arith, h, numbered)

  w-in_flight : any is_in_flight w.attempts ≡ true
  w-in_flight = any-append_last is_in_flight s.attempts (fresh_attempt n now target) refl

  -- The attempts may be rewritten, as long as their numbers stay.
  mapped-numbered :
      (f : PostingAttempt → PostingAttempt)
      → ((a : PostingAttempt) → (f a).attempt_no ≡ a.attempt_no)
      → max_attempt_no (map f w.attempts) ≡ length (map f w.attempts)
  mapped-numbered f h =
      let a = max-map f w.attempts h in
      let b = length-map f w.attempts in
      let c = w-numbered in let d = w-length in omega (arith, a, b, c, d)

  mapped-length : (f : PostingAttempt → PostingAttempt) → n ≡ length (map f w.attempts)
  mapped-length f = let b = length-map f w.attempts in let d = w-length in omega (arith, b, d)

  mapped-within :
      (f : PostingAttempt → PostingAttempt) → pos (length (map f w.attempts)) ≤ℤ policy.max_attempts
  mapped-within f =
      let b = length-map f w.attempts in let d = w-length in ground (arith, b, d, numbered, room)

  stuck-Counted : Counted policy w
  stuck-Counted =
      undetermined-Counted policy w (let c = w-numbered in let d = w-length in omega (arith, c, d))
        (let d = w-length in ground (arith, d, numbered, room))
        (in_flight-closed w.attempts s.outbox w-in_flight) no_letter

  outcome-Counted :
      (outcome : PostingOutcome)
      → Counted policy
          (after_outcome policy now backoff n outcome (record_outcome n now outcome w)).1
  unfolding record_outcome
  outcome-Counted (PostingOutcome.confirmed ref) =
      let f = resolve n now (PostingOutcome.confirmed ref) in
      closed-Counted policy (record_outcome n now (PostingOutcome.confirmed ref) w)
        (mapped-numbered f (resolve-number n now (PostingOutcome.confirmed ref))) (mapped-within f)
        (settled-closed n OutcomeCode.confirmed s.outbox refl)
  outcome-Counted (PostingOutcome.rejected why) =
      let f = resolve n now (PostingOutcome.rejected why) in
      rejected-Counted policy n now (record_outcome n now (PostingOutcome.rejected why) w)
        (mapped-numbered f (resolve-number n now (PostingOutcome.rejected why))) (mapped-within f)
        no_letter (settled-closed n OutcomeCode.rejected s.outbox refl)
  outcome-Counted (PostingOutcome.throttled after) =
      let outcome = PostingOutcome.throttled after in
      let f = resolve n now outcome in
      retry_at-Counted policy now n OutcomeCode.throttled (throttled_delay outcome (backoff n)) none
        (record_outcome n now outcome w) (mapped-length f)
        (mapped-numbered f (resolve-number n now outcome)) (mapped-within f) no_letter
  outcome-Counted (PostingOutcome.unknown detail) =
      let outcome = PostingOutcome.unknown detail in
      let f = resolve n now outcome in
      undetermined-Counted policy (record_outcome n now outcome w)
        (mapped-numbered f (resolve-number n now outcome)) (mapped-within f)
        (ambiguous-closed n OutcomeCode.unknown (map f w.attempts) s.outbox refl) no_letter
  outcome-Counted (PostingOutcome.partially_applied legs refs) =
      let outcome = PostingOutcome.partially_applied legs refs in
      let f = resolve n now outcome in
      undetermined-Counted policy (record_outcome n now outcome w)
        (mapped-numbered f (resolve-number n now outcome)) (mapped-within f)
        (ambiguous-closed n OutcomeCode.partially_applied (map f w.attempts) s.outbox refl)
        no_letter

  raise-Counted :
      (verdict : TransportVerdict) (m : ℕ)
      → Counted policy (after_raise policy now backoff m verdict w).1
  unfolding resolve_not_sent
  raise-Counted verdict m = elim (Bool-cases (retryable verdict)) [
    | inl yes_retry ↦
        rw (yes_retry, keep-snoc s.attempts (fresh_attempt n now target) idle refl)
          (retry_at-Counted policy now n OutcomeCode.not_sent (backoff n) (some verdict) resolved
            (mapped-length resolve_as_not_sent)
            (mapped-numbered resolve_as_not_sent not_sent-number)
            (mapped-within resolve_as_not_sent) no_letter)
    | inr no_retry ↦ rw no_retry stuck-Counted
  ]
    where
      resolved : Store
      resolved = record w {
        outbox = Option.map (not_sent_intent n) s.outbox;
        attempts = map resolve_as_not_sent w.attempts;
        audit = event AuditTool.post (posting_audit_outcome OutcomeCode.not_sent) now ∷ w.audit;
      }

  sent-Counted :
      (answer : AdapterAnswer) (m : ℕ)
      → Counted policy (after_dispatch policy now backoff m (after_send n now answer w)).1
  sent-Counted (answered outcome) m = outcome-Counted outcome
  sent-Counted unrecognised m = stuck-Counted
  sent-Counted (raised error) m = raise-Counted (classify_transport_failure error) m

-- A refused dispatch leaves the count, and one that is sent keeps it.
gated-Counted :
    (c : LedgerAdapterCapabilities) (policy : RetryPolicy) (now : ℤ) (target : Option Text)
    (backoff : ℕ → ℤ) (answer : AdapterAnswer) (s : Store) (m : ℕ)
    → Counted policy s
    → selectable s.attempts s.outbox ≡ true
    → s.dead_letter ≡ none
    → any is_in_flight s.attempts ≡ false
    → Counted policy (after_dispatch policy now backoff m (dispatch_once c now target answer s)).1
unfolding dispatch_once write_ahead
gated-Counted c policy now target backoff answer s m v open_to l idle =
    go (gate c now target s.attempts s.outbox)
  where
    go :
        (o : Option RefusalReason)
        → Counted policy (after_dispatch policy now backoff m (after_gate now target answer s o)).1
    go (some why) = v
    go none =
        rw (beyond_max (max_attempt_no s.attempts + 1) s.attempts (omega arith))
          (sent-Counted policy now target backoff s v.numbered (v.room open_to) l idle answer m)

selectable-idle :
    (attempts : List PostingAttempt) (o : Option Outbox)
    → selectable attempts o ≡ true
    → (pending_intent o ≡ true) × (any is_in_flight attempts ≡ false)
selectable-idle attempts none h = absurd (cc (h))
selectable-idle attempts (some o) h = ground (arith, h)

due-selectable :
    (now : ℤ) (attempts : List PostingAttempt) (o : Option Outbox)
    → due_intent now attempts o ≡ true
    → selectable attempts o ≡ true
due-selectable now attempts none h = absurd (cc (h))
due-selectable now attempts (some o) h = ground (arith, h)

pending-Counted :
    (c : LedgerAdapterCapabilities) (policy : RetryPolicy) (now : ℤ) (target : Option Text)
    (backoff : ℕ → ℤ) (answer : AdapterAnswer) (s : Store) (o : Option Outbox)
    → Counted policy s
    → pending_intent o ≡ true
    → Counted policy
        (after_dispatch policy now backoff
          (max_attempt_no s.attempts + 1)
          (dispatch_once c now target answer s)).1
    → Counted policy (attempt_pending c policy now target backoff answer s o).1
pending-Counted c policy now target backoff answer s none v h k = v
pending-Counted c policy now target backoff answer s (some o) v h k = rw h k

pub take_turn-Counted :
    (policy : RetryPolicy) (s : Store) (k : Turn)
    → Counted policy s
    → Counted policy (take_turn policy s k)
unfolding take_turn
take_turn-Counted policy s k v = elim (Bool-cases (is_due k.now s)) [
  | inl due ↦ rw due (sent due)
  | inr idle ↦ rw idle v
]
  where
    sent :
        is_due k.now s ≡ true
        → Counted policy (attempt_one k.capabilities policy k.now k.target k.backoff k.answer s).1
    sent due =
        let sel = due-selectable k.now s.attempts s.outbox due in
        let (p, i) = selectable-idle s.attempts s.outbox sel in
        pending-Counted k.capabilities policy k.now k.target k.backoff k.answer s s.outbox v p (
          gated-Counted k.capabilities policy k.now k.target k.backoff k.answer s
            (max_attempt_no s.attempts + 1) v sel (v.unlettered p) i)

-- However many passes are made, whenever they are made and whatever the adapter and the draws of the
-- delays do, an operation is sent no more often than the policy's ceiling, given that at the start its
-- attempts are numbered from one, are no more than the ceiling, and fewer while it may be selected, and
-- that it has no dead letter while its intent is pending.
pub run_turns-bounded :
    (policy : RetryPolicy) (s : Store) (ks : List Turn)
    → Counted policy s
    → pos (length (run_turns policy s ks).attempts) ≤ℤ policy.max_attempts
unfolding run_turns
run_turns-bounded policy s [] v = v.within
run_turns-bounded policy s (k ∷ ks) v =
    run_turns-bounded policy (take_turn policy s k) ks (take_turn-Counted policy s k v)
