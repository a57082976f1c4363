-- ===== src/Operations/Steps/Settled.antt =====
-- db/control.py: the check constraint `settled_requires_terminal_outcome`, as the operations keep it.
use mathlib.Core.Option
use ledger_exception_control.Common.{
  ℕ, none, some, Option, Bool, ◌≡◌, true, false, refl, inl, inr, Bool-cases, arith, ◌+◌, List, [],
  ◌∷◌, keep, any, ◌==◌, not, ◌||◌,
}
use ledger_exception_control.Control.{OutcomeCode, DispatchState}
use ledger_exception_control.Operations.Rows.{
  Store, Outbox, PostingAttempt, DeadLetter, DeadLetterReason, Envelope,
}
use ledger_exception_control.Operations.Dispatch.{
  DispatchEnd, dispatch_once, AdapterAnswer, adapter_raised, refused, answered, unrecognised,
  raised, after_send, after_write, after_gate, write_ahead, record_outcome, gate, max_attempt_no,
  is_in_flight, is_terminal, recorded, outcome_code, RefusalReason, settle_intent, dispatched,
  unrecognised_answer,
}
use ledger_exception_control.Operations.Retry.{
  dead_letter, dead_letter_over, resolve_not_sent, resolve_not_sent_of, mark_dead, not_sent_intent,
}
use ledger_exception_control.Ledger.Port.{LedgerAdapterCapabilities}
use ledger_exception_control.Common.Int.{ℤ}
use ledger_exception_control.Common.Text.{Text}

abbrev pub is_settled : DispatchState → Bool
is_settled DispatchState.settled = true
is_settled _ = false

-- A settled intent holds a terminal outcome.
abbrev pub SettledIsTerminal : Option Outbox → Type 0
SettledIsTerminal none = Unit
SettledIsTerminal (some o) = not (is_settled o.state) || recorded is_terminal o.last_outcome ≡ true

abbrev pub IsConstrained : Store → Type 0
IsConstrained s = SettledIsTerminal s.outbox

-- An intent that the gate lets through is not settled.
abbrev pub Unsettled : Option Outbox → Type 0
Unsettled none = ⊥
Unsettled (some o) = is_settled o.state ≡ false

gate-Unsettled :
    (c : LedgerAdapterCapabilities) (now : ℤ) (target : Option Text) (l : List PostingAttempt)
    (o : Option Outbox)
    → gate c now target l o ≡ none
    → SettledIsTerminal o
    → Unsettled o
unfolding gate
gate-Unsettled c now target l none e h = cc (e)
gate-Unsettled c now target l (some o) e h = ground (arith, e, h)

settle_intent-terminal :
    (n : ℕ) (code : OutcomeCode) (o : Option Outbox)
    → Unsettled o
    → SettledIsTerminal (settle_intent n code o)
settle_intent-terminal n code none u = tt
settle_intent-terminal n code (some o) u = ground (arith, u)

-- After a send, the intent is as it was, and not settled, or holds the outcome.
abbrev pub Sent : DispatchEnd × Store → Type 0
Sent (adapter_raised e, t) = Unsettled t.outbox
Sent (d, t) = SettledIsTerminal t.outbox

weaken : (o : Option Outbox) → Unsettled o → SettledIsTerminal o
weaken none u = tt
weaken (some o) u = ground (arith, u)

pub dispatch_once-Sent :
    (c : LedgerAdapterCapabilities) (now : ℤ) (target : Option Text) (answer : AdapterAnswer)
    (s : Store)
    → IsConstrained s
    → Sent (dispatch_once c now target answer s)
unfolding dispatch_once write_ahead record_outcome
dispatch_once-Sent c now target answer s h = go (gate c now target s.attempts s.outbox) refl
  where
    sent :
        (n : ℕ) (answer : AdapterAnswer) (w : Store)
        → Unsettled w.outbox
        → Sent (after_send n now answer w)
    sent n (answered outcome) w u = settle_intent-terminal n (outcome_code outcome) w.outbox u
    sent n unrecognised w u = weaken w.outbox u
    sent n (raised error) w u = u

    wrote :
        (n : ℕ)
        → Unsettled s.outbox
        → Sent (after_write n now answer s (write_ahead n now target s))
    wrote n u = elim (Bool-cases (any (λ a. a.attempt_no == n) s.attempts)) [
      | inl taken ↦ rw taken h
      | inr free ↦ rw free (sent n answer _ u)
    ]

    go :
        (o : Option RefusalReason)
        → gate c now target s.attempts s.outbox ≡ o
        → Sent (after_gate now target answer s o)
    go (some reason) e = h
    go none e =
        wrote (max_attempt_no s.attempts + 1) (gate-Unsettled c now target s.attempts s.outbox e h)

pub Sent-kept : (r : DispatchEnd × Store) → Sent r → IsConstrained r.1
Sent-kept (refused why, t) h = h
Sent-kept (adapter_raised e, t) h = weaken t.outbox h
Sent-kept (unrecognised_answer, t) h = h
Sent-kept (dispatched n outcome d, t) h = h

abbrev pub ConstrainedResult : Option Store → Type 0
ConstrainedResult none = Unit
ConstrainedResult (some s) = IsConstrained s

abbrev pub ConstrainedResolved : Option (ℕ × Store) → Type 0
ConstrainedResolved none = Unit
ConstrainedResolved (some (n, s)) = IsConstrained s

pub unsent-kept : (s : Store) → Unsettled s.outbox → ConstrainedResolved (resolve_not_sent s)
unfolding resolve_not_sent
unsent-kept s h = go (keep is_in_flight s.attempts)
  where
    intent :
        (n : ℕ) (o : Option Outbox)
        → Unsettled o
        → SettledIsTerminal (Option.map (not_sent_intent n) o)
    intent n none u = tt
    intent n (some o) u = ground (arith, u)

    go : (l : List PostingAttempt) → ConstrainedResolved (resolve_not_sent_of l s)
    go [] = tt
    go (a ∷ []) = intent a.attempt_no s.outbox h
    go (a ∷ b ∷ more) = tt

pub letter-kept :
    (reason : DeadLetterReason) (e : Envelope) (n : ℕ) (mark : Bool) (now : ℤ) (s : Store)
    → IsConstrained s
    → ConstrainedResult (dead_letter reason e n mark now s)
unfolding dead_letter
letter-kept reason e n mark now s h = go s.dead_letter
  where
    intent :
        (mark : Bool) (o : Option Outbox)
        → SettledIsTerminal o
        → SettledIsTerminal (Option.map (mark_dead mark) o)
    intent mark none k = tt
    intent true (some o) k = refl
    intent false (some o) k = k

    go : (o : Option DeadLetter) → ConstrainedResult (dead_letter_over reason e n mark now s o)
    go none = intent mark s.outbox h
    go (some earlier) = tt
