-- ===== src/Operations/Steps/ByTurns.antt =====
-- What every write preserves, a turn of the retry path preserves.
use ledger_exception_control.Common.{
  ℕ, none, some, Option, ◌≡◌, true, false, refl, inl, inr, Bool-cases, ◌+◌, Bool,
}
use ledger_exception_control.Control.{OutcomeCode}
use ledger_exception_control.Operations.Rows.{
  Store, Outbox, DeadLetterReason, Envelope, attempts_exhausted, time_budget_exhausted,
  terminal_rejection,
}
use ledger_exception_control.Operations.Dispatch.{
  DispatchEnd, dispatch_once, AdapterAnswer, refused, adapter_raised, unrecognised_answer,
  dispatched, max_attempt_no,
}
use ledger_exception_control.Operations.Retry.{
  RetryPolicy, dead_letter, attempt_one, resolve_not_sent, lettered, retry_or_dead_letter,
  after_resolution, after_raise, after_outcome, after_dispatch, attempt_pending, is_pending,
  budget_exhausted, is_due, first_sent_at, throttled_delay,
}
use ledger_exception_control.Operations.Retry.Passes.{Turn, take_turn}
use ledger_exception_control.Operations.Steps.{Kept}
use ledger_exception_control.Ledger.Port.{LedgerAdapterCapabilities, PostingOutcome}
use ledger_exception_control.Ledger.Transport.{
  TransportVerdict, retryable, classify_transport_failure,
}
use ledger_exception_control.Common.Int.{ℤ, pos, leb_ℤ}
use ledger_exception_control.Common.Text.{Text}

module _ {P : Store → Type 0} (k : Kept P) where
  lettered-kept :
      (reason : DeadLetterReason) (e : Envelope) (n : ℕ) (mark : Bool) (now : ℤ)
      (transport : Option TransportVerdict) (s : Store)
      → P s
      → P (lettered reason n transport s (dead_letter reason e n mark now s)).1
  lettered-kept reason e n mark now transport s h = go (dead_letter reason e n mark now s) refl
    where
      go :
          (o : Option Store)
          → dead_letter reason e n mark now s ≡ o
          → P (lettered reason n transport s o).1
      go none f = h
      go (some t) f = k.by_letter reason e n mark now s t h f

  retry-kept :
      (policy : RetryPolicy) (now : ℤ) (n : ℕ) (code : OutcomeCode) (delay : ℤ)
      (transport : Option TransportVerdict) (s : Store)
      → P s
      → P (retry_or_dead_letter policy now n code delay transport s).1
  unfolding retry_or_dead_letter
  retry-kept policy now n code delay transport s h =
      let e : Envelope = record {
        attempt_no = n;
        last_outcome = code;
        transport = transport;
        first_sent_at = first_sent_at s.attempts;
      } in
      elim (Bool-cases (leb_ℤ policy.max_attempts (pos n))) [
        | inl full ↦ rw full (lettered-kept attempts_exhausted e n true now transport s h)
        | inr free ↦
            elim (Bool-cases (budget_exhausted policy (first_sent_at s.attempts) now delay)) [
              | inl spent ↦
                  rw (free, spent) (lettered-kept time_budget_exhausted e n true now transport s h)
              | inr left ↦ rw (free, left) (k.by_schedule _ now s h)
            ]
      ]

  resolution-kept :
      (policy : RetryPolicy) (now : ℤ) (backoff : ℕ → ℤ) (n : ℕ) (verdict : TransportVerdict)
      (s : Store) (o : Option (ℕ × Store))
      → P s
      → ((m : ℕ) (u : Store) → o ≡ some (m, u) → P u)
      → P (after_resolution policy now backoff n verdict s o).1
  resolution-kept policy now backoff n verdict s none h w = h
  resolution-kept policy now backoff n verdict s (some (m, u)) h w =
      retry-kept policy now m OutcomeCode.not_sent (backoff m) (some verdict) u (w m u refl)

  raise-kept :
      (policy : RetryPolicy) (now : ℤ) (backoff : ℕ → ℤ) (n : ℕ) (verdict : TransportVerdict)
      (s : Store)
      → P s
      → ((m : ℕ) (u : Store) → resolve_not_sent s ≡ some (m, u) → P u)
      → P (after_raise policy now backoff n verdict s).1
  raise-kept policy now backoff n verdict s h w = elim (Bool-cases (retryable verdict)) [
    | inl again ↦ rw again (resolution-kept policy now backoff n verdict s (resolve_not_sent s) h w)
    | inr never ↦ rw never h
  ]

  outcome-kept :
      (policy : RetryPolicy) (now : ℤ) (backoff : ℕ → ℤ) (n : ℕ) (outcome : PostingOutcome)
      (s : Store)
      → P s
      → P (after_outcome policy now backoff n outcome s).1
  outcome-kept policy now backoff n (PostingOutcome.confirmed ref) s h = h
  outcome-kept policy now backoff n (PostingOutcome.rejected why) s h =
      lettered-kept terminal_rejection
        (record {
          attempt_no = n;
          last_outcome = OutcomeCode.rejected;
          transport = none;
          first_sent_at = first_sent_at s.attempts;
        })
        n false now none s h
  outcome-kept policy now backoff n (PostingOutcome.throttled wait) s h =
      retry-kept policy now n OutcomeCode.throttled
        (throttled_delay (PostingOutcome.throttled wait) (backoff n)) none s h
  outcome-kept policy now backoff n (PostingOutcome.unknown detail) s h = h
  outcome-kept policy now backoff n (PostingOutcome.partially_applied legs refs) s h = h

  pub attempt_one-kept :
      (c : LedgerAdapterCapabilities) (policy : RetryPolicy) (now : ℤ) (target : Option Text)
      (backoff : ℕ → ℤ) (answer : AdapterAnswer) (s : Store)
      → P s
      → P (attempt_one c policy now target backoff answer s).1
  unfolding attempt_one
  attempt_one-kept c policy now target backoff answer s h = go s.outbox
    where
      sent :
          (d : DispatchEnd) (t : Store)
          → dispatch_once c now target answer s ≡ (d, t)
          → P t
          → P (after_dispatch policy now backoff (max_attempt_no s.attempts + 1) (d, t)).1
      sent (refused why) t e p = p
      sent (adapter_raised error) t e p =
          raise-kept policy now backoff (max_attempt_no s.attempts + 1)
            (classify_transport_failure error) t p
            (λ m u f. k.by_failed_send c now target answer s t u error m h e f)
      sent unrecognised_answer t e p = p
      sent (dispatched m outcome is_settled) t e p = outcome-kept policy now backoff m outcome t p

      go : (o : Option Outbox) → P (attempt_pending c policy now target backoff answer s o).1
      go none = h
      go (some o) = elim (Bool-cases (is_pending o.state)) [
        | inl p ↦ rw p (
            sent (dispatch_once c now target answer s).0 (dispatch_once c now target answer s).1
              refl (k.by_dispatch c now target answer s h))
        | inr q ↦ rw q h
      ]

  pub take_turn-kept :
      (policy : RetryPolicy) (s : Store) (t : Turn) → P s → P (take_turn policy s t)
  unfolding take_turn
  take_turn-kept policy s t h = elim (Bool-cases (is_due t.now s)) [
    | inl due ↦
        rw due (attempt_one-kept t.capabilities policy t.now t.target t.backoff t.answer s h)
    | inr idle ↦ rw idle h
  ]
