-- ===== src/Operations/Dispatch/Sends.antt =====
-- How often an operation is sent where the adapter suppresses no duplicate.
use ledger_exception_control.Common.{
  none, some, Option, true, false, ℕ, List, length, ◌∷◌, any, map, [], ◌≡◌, ◌+◌, if◌then◌else◌,
  ◌++◌, arith, ap, suc, ◌≤◌, refl, ◌||◌, Bool-cases, ◌==◌, inl, inr, any-append_last,
}
use ledger_exception_control.Ledger.Port.{
  PostingOutcome, LedgerAdapterCapabilities, suppresses_duplicates,
}
use ledger_exception_control.Operations.Resend.{resend_decision}
use ledger_exception_control.Operations.Dispatch.{
  AdapterAnswer, dispatch_once, record_outcome, gate, answered, is_in_flight, after_send, recorded,
  fresh_attempt, resolve, is_terminal, unrecognised, undetermined_state, RefusalReason,
  settle_intent, write_ahead, after_gate, outcome_code, after_write, raised, max_attempt_no,
}
use ledger_exception_control.Operations.Rows.{PostingAttempt, Outbox, Store, event}
use ledger_exception_control.Control.{AuditTool, AuditOutcome}
use ledger_exception_control.Common.Int.{ℤ}
use ledger_exception_control.Common.Text.{Text}

-- A call of `dispatch_once`: when, to which endpoint, and what the adapter does if it is called.
pub record Call : Type 0 where
  pub sent_at : ℤ
  pub target : Option Text
  pub answer : AdapterAnswer

unfoldable pub run_calls : LedgerAdapterCapabilities → Store → List Call → Store
unfolding dispatch_once
run_calls c s [] = s
run_calls c s (k ∷ ks) = run_calls c (dispatch_once c k.sent_at k.target k.answer s).1 ks

abbrev pub throttle : AdapterAnswer → ℕ
throttle (answered (PostingOutcome.throttled retry_after)) = 1
throttle _ = 0

unfoldable pub throttles : List Call → ℕ
throttles [] = 0
throttles (k ∷ ks) = throttle k.answer + throttles ks

-- One more send is open for an intent that is neither terminal nor undetermined.
abbrev pub budget_of : List PostingAttempt → Option Outbox → ℕ
budget_of attempts none = 0
budget_of attempts (some o) =
    if recorded is_terminal o.last_outcome || undetermined_state o attempts then 0 else 1

abbrev pub budget : Store → ℕ
budget s = budget_of s.attempts s.outbox

gate-none :
    (c : LedgerAdapterCapabilities) (sent_at : ℤ) (target : Option Text)
    (attempts : List PostingAttempt) (o : Option Outbox)
    → suppresses_duplicates c ≡ false
    → gate c sent_at target attempts o ≡ none
    → budget_of attempts o ≡ 1
unfolding gate resend_decision
gate-none c sent_at target attempts none h g = absurd (cc)
gate-none c sent_at target attempts (some o) h g = ground (arith, h, g)

pub length-map :
    (f : PostingAttempt → PostingAttempt) (l : List PostingAttempt) → length (map f l) ≡ length l
length-map f [] = refl
length-map f (a ∷ l) = ap suc (length-map f l)

pub length-snoc :
    (l : List PostingAttempt) (a : PostingAttempt) → length (l ++ a ∷ []) ≡ suc (length l)
length-snoc [] a = refl
length-snoc (b ∷ l) a = ap suc (length-snoc l a)

-- What is recorded leaves a further send open only after a throttled answer.
budget-settle :
    (n : ℕ) (outcome : PostingOutcome) (attempts : List PostingAttempt) (o : Option Outbox)
    → budget_of attempts (settle_intent n (outcome_code outcome) o) ≤ throttle (answered outcome)
budget-settle n outcome attempts none = omega arith
budget-settle n (PostingOutcome.confirmed ref) attempts (some o) = ground arith
budget-settle n (PostingOutcome.rejected reason) attempts (some o) = ground arith
budget-settle n (PostingOutcome.throttled retry_after) attempts (some o) = ground arith
budget-settle n (PostingOutcome.unknown detail) attempts (some o) = ground arith
budget-settle n (PostingOutcome.partially_applied legs refs) attempts (some o) = ground arith

budget-in_flight :
    (attempts : List PostingAttempt) (o : Option Outbox)
    → any is_in_flight attempts ≡ true
    → budget_of attempts o ≤ 0
budget-in_flight attempts none h = omega arith
budget-in_flight attempts (some o) h = ground (arith, h)

abbrev pub written : ℕ → ℤ → Option Text → Store → Store
written n sent_at target s = record s {
  attempts = s.attempts ++ fresh_attempt n sent_at target ∷ [];
  audit = event AuditTool.post AuditOutcome.quarantined sent_at ∷ s.audit;
}

-- What holds of the store as it was, with the attempt written ahead, and with its outcome recorded,
-- holds after a dispatch.
pub dispatch_once-elim :
    (c : LedgerAdapterCapabilities) (sent_at : ℤ) (target : Option Text) (answer : AdapterAnswer)
    (s : Store) (P : Store → Type 0)
    → P s
    → ((n : ℕ) → P (written n sent_at target s))
    → ((n : ℕ) (outcome : PostingOutcome)
        → P (record_outcome n sent_at outcome (written n sent_at target s)))
    → P (dispatch_once c sent_at target answer s).1
unfolding dispatch_once write_ahead
dispatch_once-elim c sent_at target answer s P h w r =
    go (gate c sent_at target s.attempts s.outbox)
  where
    sent :
        (n : ℕ) (answer : AdapterAnswer)
        → P (after_send n sent_at answer (written n sent_at target s)).1
    sent n (answered outcome) = r n outcome
    sent n unrecognised = w n
    sent n (raised error) = w n

    wrote : (n : ℕ) → P (after_write n sent_at answer s (write_ahead n sent_at target s)).1
    wrote n = elim (Bool-cases (any (λ a. a.attempt_no == n) s.attempts)) [
      | inl taken ↦ rw taken h
      | inr free ↦ rw free (sent n answer)
    ]

    go : (o : Option RefusalReason) → P (after_gate sent_at target answer s o).1
    go (some reason) = h
    go none = wrote (max_attempt_no s.attempts + 1)

-- After the send, there is one attempt more, and a further one is open only if it was throttled.
after_send-budget :
    (n : ℕ) (sent_at : ℤ) (target : Option Text) (answer : AdapterAnswer) (s : Store)
    → let t = (after_send n sent_at answer (written n sent_at target s)).1 in
      length t.attempts + budget t ≤ suc (length s.attempts) + throttle answer
unfolding record_outcome
after_send-budget n sent_at target (answered outcome) s =
    let w = written n sent_at target s in
    let k = length-map (resolve n sent_at outcome) w.attempts in
    let b = budget-settle n outcome (map (resolve n sent_at outcome) w.attempts) s.outbox in
    let l = length-snoc s.attempts (fresh_attempt n sent_at target) in omega (arith, k, b, l)
after_send-budget n sent_at target unrecognised s =
    let l = length-snoc s.attempts (fresh_attempt n sent_at target) in
    let b =
      budget-in_flight (s.attempts ++ fresh_attempt n sent_at target ∷ []) s.outbox
        (any-append_last is_in_flight s.attempts (fresh_attempt n sent_at target) refl) in
    omega (arith, l, b)
after_send-budget n sent_at target (raised error) s =
    let l = length-snoc s.attempts (fresh_attempt n sent_at target) in
    let b =
      budget-in_flight (s.attempts ++ fresh_attempt n sent_at target ∷ []) s.outbox
        (any-append_last is_in_flight s.attempts (fresh_attempt n sent_at target) refl) in
    omega (arith, l, b)

write_ahead-budget :
    (n : ℕ) (sent_at : ℤ) (target : Option Text) (answer : AdapterAnswer) (s : Store)
    → let t = (after_write n sent_at answer s (write_ahead n sent_at target s)).1 in
      budget s ≡ 1 → length t.attempts + budget t ≤ length s.attempts + budget s + throttle answer
unfolding write_ahead
write_ahead-budget n sent_at target answer s b =
    elim (Bool-cases (any (λ a. a.attempt_no == n) s.attempts)) [
      | inl taken ↦ rw taken (omega arith)
      | inr free ↦
          rw (free, b) (let h = after_send-budget n sent_at target answer s in omega (arith, h))
    ]

dispatch_once-budget :
    (c : LedgerAdapterCapabilities) (s : Store) (k : Call)
    → suppresses_duplicates c ≡ false
    → let t = (dispatch_once c k.sent_at k.target k.answer s).1 in
      length t.attempts + budget t ≤ length s.attempts + budget s + throttle k.answer
unfolding dispatch_once
dispatch_once-budget c s k h = go (gate c k.sent_at k.target s.attempts s.outbox) refl
  where
    go :
        (o : Option RefusalReason)
        → gate c k.sent_at k.target s.attempts s.outbox ≡ o
        → let t = (after_gate k.sent_at k.target k.answer s o).1 in
          length t.attempts + budget t ≤ length s.attempts + budget s + throttle k.answer
    go (some reason) e = omega arith
    go none e =
        write_ahead-budget (max_attempt_no s.attempts + 1) k.sent_at k.target k.answer s
          (gate-none c k.sent_at k.target s.attempts s.outbox h e)

-- Through an adapter that does not suppress duplicates, any sequence of dispatches, whatever the
-- adapter answers or raises, adds at most one attempt to an operation that is neither terminal nor
-- undetermined and none to another, and besides at most one for each call that the adapter would
-- answer as throttled.
pub run_calls-sends :
    (c : LedgerAdapterCapabilities) (s : Store) (ks : List Call)
    → suppresses_duplicates c ≡ false
    → length (run_calls c s ks).attempts ≤ length s.attempts + budget s + throttles ks
unfolding run_calls throttles
run_calls-sends c s ks h = let g = bounded c s ks h in omega (arith, g)
  where
    bounded :
        (c : LedgerAdapterCapabilities) (s : Store) (ks : List Call)
        → suppresses_duplicates c ≡ false
        → length (run_calls c s ks).attempts + budget (run_calls c s ks)
          ≤ length s.attempts + budget s + throttles ks
    bounded c s [] h = omega arith
    bounded c s (k ∷ ks) h =
        let g = bounded c (dispatch_once c k.sent_at k.target k.answer s).1 ks h in
        let one = dispatch_once-budget c s k h in omega (arith, g, one)
