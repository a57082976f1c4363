-- ===== src/Operations/Dispatch/Records.antt =====
-- What a dispatch leaves in the database.
use ledger_exception_control.Common.{
  none, some, Option, true, false, ℕ, List, ◌≡◌, ◌≢◌, any, ◌<◌, ◌==◌, ◌++◌, arith, map, ◌∷◌, [],
  refl, ap, sym, ◌+◌, Bool-cases, inl, inr,
}
use ledger_exception_control.Control.{OutcomeCode, DispatchState}
use ledger_exception_control.Ledger.Port.{PostingOutcome, LedgerAdapterCapabilities}
use ledger_exception_control.Operations.Dispatch.Sends.{Call, run_calls, written}
use ledger_exception_control.Operations.Dispatch.{
  write_ahead, gate, max_attempt_no, dispatch_once, record_outcome, AdapterAnswer, RefusalReason,
  recorded, refused, is_terminal, after_send, reference_of, attempt_taken, settle_intent, resolve,
  answered, outcome_code, after_write, after_gate, unrecognised, raised, fresh_attempt,
}
use ledger_exception_control.Operations.Rows.{PostingAttempt, Outbox, Store}
use ledger_exception_control.Common.Text.{Text}
use ledger_exception_control.Common.Int.{ℤ}
use mathlib.Core.Path.{subst}

-- A refused dispatch leaves no trace: what the database holds is what it was.
pub dispatch_once-refused :
    (c : LedgerAdapterCapabilities) (sent_at : ℤ) (target : Option Text) (answer : AdapterAnswer)
    (s t : Store) (reason : RefusalReason)
    → dispatch_once c sent_at target answer s ≡ (refused reason, t)
    → t ≡ s
unfolding dispatch_once
dispatch_once-refused c sent_at target answer s t reason h =
    go (gate c sent_at target s.attempts s.outbox) h
  where
    sent :
        (n : ℕ) (w : Store) (answer : AdapterAnswer)
        → after_send n sent_at answer w ≡ (refused reason, t)
        → t ≡ s
    sent n w (answered outcome) h = absurd (cc (ap (λ r. r.0) h))
    sent n w unrecognised h = absurd (cc (ap (λ r. r.0) h))
    sent n w (raised error) h = absurd (cc (ap (λ r. r.0) h))

    wrote :
        (n : ℕ) (w : Option Store) → after_write n sent_at answer s w ≡ (refused reason, t) → t ≡ s
    wrote n none h = sym (ap (λ r. r.1) h)
    wrote n (some w) h = sent n w answer h

    go :
        (o : Option RefusalReason)
        → after_gate sent_at target answer s o ≡ (refused reason, t)
        → t ≡ s
    go (some r) h = sym (ap (λ r. r.1) h)
    go none h =
        wrote (max_attempt_no s.attempts + 1)
          (write_ahead (max_attempt_no s.attempts + 1) sent_at target s) h

taken-snoc :
    (n : ℕ) (l : List PostingAttempt) (a : PostingAttempt)
    → a.attempt_no ≡ n
    → any (λ b. b.attempt_no == n) (l ++ a ∷ []) ≡ true
taken-snoc n [] a h = ground (arith, h)
taken-snoc n (b ∷ l) a h = ground (arith, taken-snoc n l a h)

taken-resolve :
    (n k : ℕ) (sent_at : ℤ) (outcome : PostingOutcome) (l : List PostingAttempt)
    → any (λ b. b.attempt_no == n) (map (resolve k sent_at outcome) l)
      ≡ any (λ b. b.attempt_no == n) l
taken-resolve n k sent_at outcome [] = refl
taken-resolve n k sent_at outcome (a ∷ l) = ground (arith, taken-resolve n k sent_at outcome l)

abbrev attempts_of : Option Store → List PostingAttempt
attempts_of none = []
attempts_of (some w) = w.attempts

write_ahead-taken :
    (n : ℕ) (sent_at : ℤ) (target : Option Text) (s w : Store)
    → write_ahead n sent_at target s ≡ some w
    → any (λ b. b.attempt_no == n) w.attempts ≡ true
unfolding write_ahead
write_ahead-taken n sent_at target s w h =
    elim (Bool-cases (any (λ b. b.attempt_no == n) s.attempts)) [
      | inl t ↦ absurd (cc (rw t at h))
      | inr f ↦
          rw (sym (ap attempts_of (rw f at h)))
            (taken-snoc n s.attempts (fresh_attempt n sent_at target) refl)
    ]

-- Of two dispatchers that both passed the gate and hold the same attempt number, the one that
-- writes second is refused, whether or not the first has recorded its outcome by then.
pub write_ahead-once :
    (n : ℕ) (first second : ℤ) (target target' : Option Text) (s w : Store)
    (outcome : PostingOutcome)
    → write_ahead n first target s ≡ some w
    → (write_ahead n second target' w ≡ none)
      × (write_ahead n second target' (record_outcome n first outcome w) ≡ none)
unfolding write_ahead record_outcome
write_ahead-once n first second target target' s w outcome h =
    let t = write_ahead-taken n first target s w h in
    (rw t refl, rw (taken-resolve n n first outcome w.attempts, t) refl)

pub beyond_max :
    (n : ℕ) (l : List PostingAttempt)
    → max_attempt_no l < n
    → any (λ b. b.attempt_no == n) l ≡ false
unfolding max_attempt_no
beyond_max n [] h = refl
beyond_max n (a ∷ l) h = ground (arith, beyond_max n l)

gate-not_taken :
    (c : LedgerAdapterCapabilities) (sent_at : ℤ) (target : Option Text)
    (attempts : List PostingAttempt) (o : Option Outbox)
    → gate c sent_at target attempts o ≢ some attempt_taken
unfolding gate
gate-not_taken c sent_at target attempts none h = absurd (cc)
gate-not_taken c sent_at target [] (some o) h = ground (arith, h)
gate-not_taken c sent_at target (a ∷ l) (some o) h = ground (arith, h)

after_send-sent :
    (n : ℕ) (sent_at : ℤ) (answer : AdapterAnswer) (w : Store) (reason : RefusalReason)
    → (after_send n sent_at answer w).0 ≢ refused reason
after_send-sent n sent_at (answered outcome) w reason h = absurd (cc)
after_send-sent n sent_at unrecognised w reason h = absurd (cc)
after_send-sent n sent_at (raised error) w reason h = absurd (cc)

refused_reason : (r : RefusalReason) → refused r ≡ refused attempt_taken → r ≡ attempt_taken
refused_reason r e = cc (e)

-- A dispatch that nothing interrupts is never refused for its attempt number.
pub dispatch_once-number_free :
    (c : LedgerAdapterCapabilities) (sent_at : ℤ) (target : Option Text) (answer : AdapterAnswer)
    (s : Store)
    → (dispatch_once c sent_at target answer s).0 ≢ refused attempt_taken
unfolding dispatch_once write_ahead
dispatch_once-number_free c sent_at target answer s =
    go (gate c sent_at target s.attempts s.outbox)
      (gate-not_taken c sent_at target s.attempts s.outbox)
  where
    go :
        (o : Option RefusalReason)
        → o ≢ some attempt_taken
        → (after_gate sent_at target answer s o).0 ≢ refused attempt_taken
    go (some reason) h = λ e. h (ap some (refused_reason reason e))
    go none h = rw (beyond_max (max_attempt_no s.attempts + 1) s.attempts (omega arith)) (
        after_send-sent (max_attempt_no s.attempts + 1) sent_at answer
          (written (max_attempt_no s.attempts + 1) sent_at target s) attempt_taken)

-- A settled intent has a terminal outcome, and a confirmed one has a reference.
abbrev pub SoundIntent : Option Text → Option Outbox → Type 0
SoundIntent ref none = Unit
SoundIntent ref (some o) =
    (o.state ≡ DispatchState.settled → recorded is_terminal o.last_outcome ≡ true)
    × (o.last_outcome ≡ some OutcomeCode.confirmed → ref ≢ none)

abbrev pub Sound : Store → Type 0
Sound s = SoundIntent s.posting_ref s.outbox

gate-not_terminal :
    (c : LedgerAdapterCapabilities) (sent_at : ℤ) (target : Option Text)
    (attempts : List PostingAttempt) (o : Outbox)
    → gate c sent_at target attempts (some o) ≡ none
    → recorded is_terminal o.last_outcome ≡ false
unfolding gate
gate-not_terminal c sent_at target attempts o h = ground arith

settle-Sound :
    (n : ℕ) (outcome : PostingOutcome) (ref : Option Text) (o : Option Outbox)
    → ((i : Outbox) → o ≡ some i → recorded is_terminal i.last_outcome ≡ false)
    → SoundIntent ref o
    → SoundIntent (reference_of outcome ref) (settle_intent n (outcome_code outcome) o)
settle-Sound n outcome ref none open_intent h = tt
settle-Sound n (PostingOutcome.confirmed r) ref (some o) open_intent h =
    (λ e. refl, λ e x. absurd (cc))
settle-Sound n (PostingOutcome.rejected r) ref (some o) open_intent h =
    (λ e. refl, λ e x. absurd (cc (e)))
settle-Sound n (PostingOutcome.throttled r) ref (some o) open_intent h =
    (λ e. absurd (cc (h.0 e, open_intent o refl)), λ e x. absurd (cc (e)))
settle-Sound n (PostingOutcome.unknown r) ref (some o) open_intent h =
    (λ e. absurd (cc (h.0 e, open_intent o refl)), λ e x. absurd (cc (e)))
settle-Sound n (PostingOutcome.partially_applied k r) ref (some o) open_intent h =
    (λ e. absurd (cc (h.0 e, open_intent o refl)), λ e x. absurd (cc (e)))

-- A dispatch keeps it, however it ends, that a settled intent has a terminal outcome and that a
-- confirmed one has a posting reference.
pub dispatch_once-Sound :
    (c : LedgerAdapterCapabilities) (sent_at : ℤ) (target : Option Text) (answer : AdapterAnswer)
    (s : Store)
    → Sound s
    → Sound (dispatch_once c sent_at target answer s).1
unfolding dispatch_once write_ahead record_outcome
dispatch_once-Sound c sent_at target answer s h =
    go (gate c sent_at target s.attempts s.outbox) refl
  where
    sent :
        (n : ℕ) (answer : AdapterAnswer)
        → gate c sent_at target s.attempts s.outbox ≡ none
        → Sound (after_send n sent_at answer (written n sent_at target s)).1
    sent n (answered outcome) e =
        settle-Sound n outcome s.posting_ref s.outbox
          (λ i j.
            gate-not_terminal c sent_at target s.attempts i
              (subst (λ o. gate c sent_at target s.attempts o ≡ none) j e))
          h
    sent n unrecognised e = h
    sent n (raised error) e = h

    go :
        (o : Option RefusalReason)
        → gate c sent_at target s.attempts s.outbox ≡ o
        → Sound (after_gate sent_at target answer s o).1
    go (some reason) e = h
    go none e =
        let n = max_attempt_no s.attempts + 1 in
        rw (beyond_max n s.attempts (omega arith)) (sent n answer e)

-- The intent is sound after any sequence of dispatches, if it is at the start.
pub run_calls-Sound :
    (c : LedgerAdapterCapabilities) (s : Store) (ks : List Call)
    → Sound s
    → Sound (run_calls c s ks)
unfolding run_calls
run_calls-Sound c s [] h = h
run_calls-Sound c s (k ∷ ks) h =
    run_calls-Sound c (dispatch_once c k.sent_at k.target k.answer s).1 ks
      (dispatch_once-Sound c k.sent_at k.target k.answer s h)
