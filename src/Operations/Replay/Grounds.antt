-- ===== src/Operations/Replay/Grounds.antt =====
-- operations/retry.py: what a replay does to the entry and to the ledger.
use mathlib.Core.Option
use ledger_exception_control.Common.{
  none, some, Option, ℕ, ◌≡◌, refl, if◌then◌else◌, List, ap, Bool, ◌∷◌, if-cases, keep, [], true,
  inr, ◌⊎◌, false, not, inl, ◌+◌,
}
use ledger_exception_control.Operations.Rows.{Store, PostingAttempt, DeadLetter, Outbox}
use ledger_exception_control.Operations.Dispatch.{
  DispatchEnd, dispatch_once, AdapterAnswer, adapter_raised, unrecognised_answer, dispatched,
  record_outcome, is_in_flight, write_ahead, after_send, recorded, answered, raised, after_write,
  RefusalReason, after_gate, max_attempt_no, gate, unrecognised,
}
use ledger_exception_control.Operations.Dispatch.Sends.{dispatch_once-elim}
use ledger_exception_control.Operations.Retry.{resolve_not_sent, resolve_not_sent_of}
use ledger_exception_control.Operations.Replay.{
  ReplayEnd, ReplayOutcome, replayed, replay_dispatched, replay_answered, resolved_or_same,
  resolves_entry, mark_replayed, close_entry, replay_dead_letter, replay_letter, replay_entry,
  is_rejected, is_replay_pending,
}
use ledger_exception_control.Ledger.Port.{LedgerAdapterCapabilities, PostingOutcome}
use ledger_exception_control.Ledger.Transport.{retryable, classify_transport_failure}
use ledger_exception_control.Common.Int.{ℤ}
use ledger_exception_control.Common.Text.{Text}

-- The entry after a replay that ends so: marked where the outcome resolves it, and as it was if not.
abbrev pub entry_after : ℤ → ReplayEnd → Option DeadLetter → Option DeadLetter
entry_after now (replayed outcome ref) d =
    if resolves_entry outcome then Option.map (mark_replayed now) d else d
entry_after now _ d = d

abbrev pub rejected_before : Option Outbox → Bool
rejected_before none = false
rejected_before (some o) = recorded is_rejected o.last_outcome

-- The outcome that is reported is grounded in what was on record or in what the ledger answers.
abbrev pub IsGrounded : AdapterAnswer → Store → ReplayEnd → Store → Type 0
IsGrounded answer s (replayed ReplayOutcome.applied ref) t =
    (posted : Text) × (answer ≡ AdapterAnswer.answered (PostingOutcome.confirmed posted))
    × (ref ≡ some posted)
IsGrounded answer s (replayed ReplayOutcome.already_confirmed ref) t =
    (posted : Text) × (s.posting_ref ≡ some posted)
    × (ref ≡ some posted)
    × (t.attempts ≡ s.attempts)
IsGrounded answer s (replayed ReplayOutcome.rejected ref) t =
    ((rejected_before s.outbox ≡ true) × (t.attempts ≡ s.attempts))
    ⊎ ((why : Text) × (answer ≡ AdapterAnswer.answered (PostingOutcome.rejected why)))
IsGrounded answer s end t = Unit

abbrev pub IsReplayed : AdapterAnswer → ℤ → Store → ReplayEnd × Store → Type 0
IsReplayed answer now s (end, t) =
    (t.dead_letter ≡ entry_after now end s.dead_letter) × IsGrounded answer s end t

module _ (c : LedgerAdapterCapabilities) (now : ℤ) (target : Option Text) (answer : AdapterAnswer)
    (principal : Text) (s : Store) where
  abbrev Q : ReplayEnd × Store → Type 0
  Q = IsReplayed answer now s

  dispatched-letter : (dispatch_once c now target answer s).1.dead_letter ≡ s.dead_letter
  unfolding record_outcome
  dispatched-letter =
      dispatch_once-elim c now target answer s (λ t. t.dead_letter ≡ s.dead_letter) refl (λ n. refl)
        (λ n outcome. refl)

  unsent-letter :
      (t : Store)
      → t.dead_letter ≡ s.dead_letter
      → (resolved_or_same t (resolve_not_sent t)).dead_letter ≡ s.dead_letter
  unfolding resolve_not_sent
  unsent-letter t h = go (keep is_in_flight t.attempts)
    where
      go :
          (l : List PostingAttempt)
          → (resolved_or_same t (resolve_not_sent_of l t)).dead_letter ≡ s.dead_letter
      go [] = h
      go (a ∷ []) = h
      go (a ∷ b ∷ more) = h

  answered-replayed :
      (outcome : PostingOutcome) (t : Store)
      → t.dead_letter ≡ s.dead_letter
      → answer ≡ AdapterAnswer.answered outcome
      → Q (replay_answered now principal outcome t)
  unfolding close_entry
  answered-replayed (PostingOutcome.confirmed ref) t h e =
      (ap (Option.map (mark_replayed now)) h, (ref, e, refl))
  answered-replayed (PostingOutcome.rejected why) t h e =
      (ap (Option.map (mark_replayed now)) h, inr (why, e))
  answered-replayed (PostingOutcome.throttled wait) t h e = (h, tt)
  answered-replayed (PostingOutcome.unknown detail) t h e = (h, tt)
  answered-replayed (PostingOutcome.partially_applied legs refs) t h e = (h, tt)

  sent-replayed :
      (d : DispatchEnd) (t : Store)
      → t.dead_letter ≡ s.dead_letter
      → ((n : ℕ) (outcome : PostingOutcome) (is_settled : Bool)
          → d ≡ dispatched n outcome is_settled
          → answer ≡ AdapterAnswer.answered outcome)
      → Q (replay_dispatched now principal (d, t))
  sent-replayed (DispatchEnd.refused why) t h w = (h, tt)
  sent-replayed (adapter_raised error) t h w =
      if-cases Q (retryable (classify_transport_failure error)) (λ again. (unsent-letter t h, tt))
        (λ never. (h, tt))
  sent-replayed unrecognised_answer t h w = (h, tt)
  sent-replayed (dispatched n outcome is_settled) t h w =
      answered-replayed outcome t h (w n outcome is_settled refl)

  -- An outcome that a dispatch reports is the adapter's answer.
  dispatched-answer :
      (n : ℕ) (outcome : PostingOutcome) (is_settled : Bool)
      → (dispatch_once c now target answer s).0 ≡ dispatched n outcome is_settled
      → answer ≡ AdapterAnswer.answered outcome
  unfolding dispatch_once write_ahead
  dispatched-answer n outcome is_settled = go (gate c now target s.attempts s.outbox)
    where
      sent :
          (m : ℕ) (a : AdapterAnswer) (w : Store)
          → (after_send m now a w).0 ≡ dispatched n outcome is_settled
          → a ≡ AdapterAnswer.answered outcome
      sent m (answered o) w e = cc (e)
      sent m unrecognised w e = absurd (cc (e))
      sent m (raised error) w e = absurd (cc (e))

      wrote :
          (m : ℕ) (o : Option Store)
          → (after_write m now answer s o).0 ≡ dispatched n outcome is_settled
          → answer ≡ AdapterAnswer.answered outcome
      wrote m none e = absurd (cc (e))
      wrote m (some w) e = sent m answer w e

      go :
          (o : Option RefusalReason)
          → (after_gate now target answer s o).0 ≡ dispatched n outcome is_settled
          → answer ≡ AdapterAnswer.answered outcome
      go (some reason) e = absurd (cc (e))
      go none e =
          wrote (max_attempt_no s.attempts + 1)
            (write_ahead (max_attempt_no s.attempts + 1) now target s) e

  entry-replayed :
      (ref : Option Text) (o : Option Outbox)
      → s.posting_ref ≡ ref
      → s.outbox ≡ o
      → Q (replay_entry c now target answer principal s ref o)
  unfolding close_entry
  entry-replayed ref none e f = (refl, tt)
  entry-replayed (some already) (some o) e f = (refl, (already, e, refl, refl))
  entry-replayed none (some o) e f =
      if-cases Q (recorded is_rejected o.last_outcome) (λ r. (refl, inl (rw f r, refl)))
        (λ q.
          sent-replayed (dispatch_once c now target answer s).0
            (dispatch_once c now target answer s).1 dispatched-letter dispatched-answer)

  -- After a replay, the dead letter is marked as replayed where the reported outcome is `applied`,
  -- `already_confirmed` or `rejected`, and is what it was with any other and where the replay is
  -- refused. `applied` is reported only for the adapter's confirmation, with its reference;
  -- `already_confirmed` only for a reference that stands on the adjustment, with nothing sent; and
  -- `rejected` for a rejection on record, with nothing sent, or the adapter's.
  pub replay_dead_letter-grounded : Q (replay_dead_letter c now target answer principal s)
  unfolding replay_dead_letter
  replay_dead_letter-grounded = go s.dead_letter
    where
      go : (d : Option DeadLetter) → Q (replay_letter c now target answer principal s d)
      go none = (refl, tt)
      go (some d) =
          if-cases Q (not (is_replay_pending d.replay_state)) (λ closed. (refl, tt))
            (λ open_entry. entry-replayed s.posting_ref s.outbox refl refl)
