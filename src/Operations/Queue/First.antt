-- ===== src/Operations/Queue/First.antt =====
-- operations/retry.py: which operations `due_adjustments` selects.
use ledger_exception_control.Common.{
  ℕ, none, some, Option, List, ◌≡◌, true, false, map, arith, refl, inl, ◌∷◌, Bool-cases, length,
  ◌≤◌, all, inr, ◌≢◌, All, any, all-In, [], contains, In, ◌⊎◌,
}
use ledger_exception_control.Common.Int.{ℤ, ◌≤ℤ◌, eq_ℤ, ◌<ℤ◌, eq_ℤ_iff}
use ledger_exception_control.Common.Select.{select_first, IsFirst, select_first-IsFirst}
use ledger_exception_control.Operations.Queue.{
  Operation, adjustment, queue_le, schedule_le, schedule_of, is_eligible, due_adjustments,
}
use ledger_exception_control.Operations.Retry.{schedule_reached, is_due, is_pending, due_intent}
use ledger_exception_control.Operations.Rows.{PostingAttempt, Outbox}
use ledger_exception_control.Control.{DispatchState, OutcomeCode, AttemptState}
use ledger_exception_control.Common.Order.{IsOrdered}
use ledger_exception_control.Operations.Dispatch.{
  recorded, in_flight_state, is_ambiguous, is_in_flight,
}
use ledger_exception_control.Common.Gather.{contains-false, not-In}

schedule_le_total :
    (s t : Option ℤ) (a b : ℤ) → schedule_le s t a b ≡ false → schedule_le t s b a ≡ true
schedule_le_total none none a b h = ground arith
schedule_le_total none (some t) a b h = absurd (cc (h))
schedule_le_total (some s) none a b h = ground arith
schedule_le_total (some s) (some t) a b h = ground arith

schedule_le_trans :
    (s t u : Option ℤ) (a b c : ℤ)
    → schedule_le s t a b ≡ true
    → schedule_le t u b c ≡ true
    → schedule_le s u a c ≡ true
schedule_le_trans none none none a b c h k = ground arith
schedule_le_trans none none (some u) a b c h k = ground arith
schedule_le_trans none (some t) none a b c h k = absurd (cc (k))
schedule_le_trans none (some t) (some u) a b c h k = ground arith
schedule_le_trans (some s) none u a b c h k = absurd (cc (h))
schedule_le_trans (some s) (some t) none a b c h k = absurd (cc (k))
schedule_le_trans (some s) (some t) (some u) a b c h k = ground arith

-- Earlier on the schedule: what has no time stands first, then the earlier time, and what comes level
-- stands by its age.
abbrev pub Earlier : Option ℤ → Option ℤ → ℤ → ℤ → Type 0
Earlier none none a b = a ≤ℤ b
Earlier none (some t) a b = Unit
Earlier (some s) none a b = ⊥
Earlier (some s) (some t) a b = (s <ℤ t) ⊎ ((s ≡ t) × (a ≤ℤ b))

abbrev pub ComesFirst : Operation → Operation → Type 0
ComesFirst x y =
    Earlier (schedule_of x.rows.outbox) (schedule_of y.rows.outbox) x.created_at y.created_at

abbrev pub InOrder : List Operation → Type 0
InOrder [] = Unit
InOrder (o ∷ os) = All (λ (later : Operation). ComesFirst o later) os × InOrder os

abbrev pub IsReached : ℤ → Option ℤ → Type 0
IsReached now none = Unit
IsReached now (some at) = at ≤ℤ now

abbrev pub IsClear : Option OutcomeCode → Type 0
IsClear none = Unit
IsClear (some code) = (code ≢ OutcomeCode.unknown) × (code ≢ OutcomeCode.partially_applied)

-- The intent is pending and its time has come, no attempt is in flight, the last outcome is not
-- ambiguous, and no other transaction holds the row.
pub record IsWaiting (locked : List ℕ) (now : ℤ) (o : Operation) (intent : Outbox) : Type 0 where
  pub enqueued : o.rows.outbox ≡ some intent
  pub pending : intent.state ≡ DispatchState.pending
  pub reached : IsReached now intent.next_attempt_at
  pub landed : All (λ (a : PostingAttempt). a.state ≡ AttemptState.resolved) o.rows.attempts
  pub clear : IsClear intent.last_outcome
  pub free : In o.adjustment_id locked → ⊥

leb-Earlier : (s t : Option ℤ) (a b : ℤ) → schedule_le s t a b ≡ true → Earlier s t a b
leb-Earlier none none a b h = ground arith
leb-Earlier none (some t) a b h = tt
leb-Earlier (some s) none a b h = absurd (cc (h))
leb-Earlier (some s) (some t) a b h = elim (Bool-cases (eq_ℤ s t)) [
  | inl level ↦ inr ((eq_ℤ_iff s t).0 level, ground (arith, level, h))
  | inr apart ↦ inl (ground (arith, apart, h))
]

queue_le-ComesFirst : (x y : Operation) → queue_le x y ≡ true → ComesFirst x y
unfolding queue_le
queue_le-ComesFirst x y h =
    leb-Earlier (schedule_of x.rows.outbox) (schedule_of y.rows.outbox) x.created_at y.created_at h

schedule_reached-IsReached :
    (now : ℤ) (at : Option ℤ) → schedule_reached now at ≡ true → IsReached now at
schedule_reached-IsReached now none h = tt
schedule_reached-IsReached now (some at) h = ground arith

IsReached-schedule_reached :
    (now : ℤ) (at : Option ℤ) → IsReached now at → schedule_reached now at ≡ true
IsReached-schedule_reached now none h = refl
IsReached-schedule_reached now (some at) h = ground arith

recorded-IsClear : (last : Option OutcomeCode) → recorded is_ambiguous last ≡ false → IsClear last
recorded-IsClear none h = tt
recorded-IsClear (some OutcomeCode.confirmed) h = (λ e. cc, λ e. cc)
recorded-IsClear (some OutcomeCode.rejected) h = (λ e. cc, λ e. cc)
recorded-IsClear (some OutcomeCode.throttled) h = (λ e. cc, λ e. cc)
recorded-IsClear (some OutcomeCode.not_sent) h = (λ e. cc, λ e. cc)
recorded-IsClear (some OutcomeCode.unknown) h = absurd (cc (h))
recorded-IsClear (some OutcomeCode.partially_applied) h = absurd (cc (h))

IsClear-recorded : (last : Option OutcomeCode) → IsClear last → recorded is_ambiguous last ≡ false
IsClear-recorded none h = refl
IsClear-recorded (some OutcomeCode.confirmed) h = refl
IsClear-recorded (some OutcomeCode.rejected) h = refl
IsClear-recorded (some OutcomeCode.throttled) h = refl
IsClear-recorded (some OutcomeCode.not_sent) h = refl
IsClear-recorded (some OutcomeCode.unknown) h = absurd (h.0 refl)
IsClear-recorded (some OutcomeCode.partially_applied) h = absurd (h.1 refl)

state-resolved : (a : AttemptState) → in_flight_state a ≡ false → a ≡ AttemptState.resolved
state-resolved AttemptState.in_flight h = absurd (cc (h))
state-resolved AttemptState.resolved h = refl

none_in_flight :
    (attempts : List PostingAttempt)
    → any is_in_flight attempts ≡ false
    → All (λ (a : PostingAttempt). a.state ≡ AttemptState.resolved) attempts
none_in_flight [] h = tt
none_in_flight (a ∷ more) h =
    (state-resolved a.state (ground arith), none_in_flight more (ground arith))

resolved-none_in_flight :
    (attempts : List PostingAttempt)
    → All (λ (a : PostingAttempt). a.state ≡ AttemptState.resolved) attempts
    → any is_in_flight attempts ≡ false
resolved-none_in_flight [] h = refl
resolved-none_in_flight (a ∷ more) (h, hs) = rw (h) (resolved-none_in_flight more hs)

state-pending : (d : DispatchState) → is_pending d ≡ true → d ≡ DispatchState.pending
state-pending DispatchState.pending h = refl
state-pending DispatchState.settled h = absurd (cc (h))
state-pending DispatchState.dead_lettered h = absurd (cc (h))

due-IsWaiting :
    (locked : List ℕ) (now : ℤ) (o : Operation) (outbox : Option Outbox)
    → o.rows.outbox ≡ outbox
    → due_intent now o.rows.attempts outbox ≡ true
    → contains o.adjustment_id locked ≡ false
    → (intent : Outbox) × IsWaiting locked now o intent
due-IsWaiting locked now o none e h c = absurd (cc (h))
due-IsWaiting locked now o (some i) e h c = (
  i,
  record {
    enqueued = e;
    pending = state-pending i.state (ground arith);
    reached = schedule_reached-IsReached now i.next_attempt_at (ground arith);
    landed = none_in_flight o.rows.attempts (ground arith);
    clear = recorded-IsClear i.last_outcome (ground arith);
    free = not-In o.adjustment_id locked c;
  },
)

eligible-IsWaiting :
    (locked : List ℕ) (now : ℤ) (o : Operation)
    → is_eligible locked now o ≡ true
    → (intent : Outbox) × IsWaiting locked now o intent
unfolding is_due
eligible-IsWaiting locked now o h =
    due-IsWaiting locked now o o.rows.outbox refl (ground arith) (ground arith)

IsWaiting-eligible :
    (locked : List ℕ) (now : ℤ) (o : Operation) (intent : Outbox)
    → IsWaiting locked now o intent
    → is_eligible locked now o ≡ true
unfolding is_due
IsWaiting-eligible locked now o i w =
    rw
      (
        w.enqueued,
        w.pending,
        IsReached-schedule_reached now i.next_attempt_at w.reached,
        resolved-none_in_flight o.rows.attempts w.landed,
        IsClear-recorded i.last_outcome w.clear,
        contains-false o.adjustment_id locked w.free,
      )
      refl

ordered-InOrder : (os : List Operation) → IsOrdered queue_le os → InOrder os
ordered-InOrder [] h = tt
ordered-InOrder (o ∷ os) (h, hs) = (later os h, ordered-InOrder os hs)
  where
    later :
        (l : List Operation) → all (queue_le o) l ≡ true → All (λ (y : Operation). ComesFirst o y) l
    later [] k = tt
    later (y ∷ l) k = (queue_le-ComesFirst o y (ground arith), later l (ground arith))

-- What a selection of the queue gives: at most `limit` rows, each of the table and waiting, in order;
-- and a row that waits and is not given comes after all that are, of which there are `limit`.
pub record IsServed (locked : List ℕ) (now : ℤ) (limit : ℕ) (table chosen : List Operation)
    : Type 0 where
  pub within : length chosen ≤ limit
  pub waiting :
      (o : Operation)
      → In o chosen
      → In o table × ((intent : Outbox) × IsWaiting locked now o intent)
  pub ordered : InOrder chosen
  pub fair :
      (o : Operation) (intent : Outbox)
      → In o table
      → IsWaiting locked now o intent
      → In o chosen ⊎ ((length chosen ≡ limit) × ((c : Operation) → In c chosen → ComesFirst c o))

IsFirst-IsServed :
    (locked : List ℕ) (now : ℤ) (limit : ℕ) (table chosen : List Operation)
    → IsFirst queue_le (is_eligible locked now) limit table chosen
    → IsServed locked now limit table chosen
IsFirst-IsServed locked now limit table chosen f = record {
  within = f.within;
  waiting = λ o m. let (n, e) = f.fitting o m in (n, eligible-IsWaiting locked now o e);
  ordered = ordered-InOrder chosen f.ordered;
  fair = λ o i m w. elim (f.earliest o m (IsWaiting-eligible locked now o i w)) [
    | inl given ↦ inl given
    | inr (full, before) ↦
        inr (full, λ c n. queue_le-ComesFirst c o (all-In (λ d. queue_le d o) c chosen before n))
  ];
}

-- `due_adjustments` gives the adjustments of rows that wait: their intent is pending and its time has
-- come, no attempt of theirs is in flight, their last outcome is not ambiguous, and no other
-- transaction holds them. They are at most `limit`, in the order of their schedules, those without
-- one first, and where the schedules come level of their age. A row that waits and is not given comes
-- no earlier than any that is, and then the limit is reached: nothing overtakes in the queue.
pub due_adjustments-IsFirst :
    (locked : List ℕ) (now : ℤ) (limit : ℕ) (table : List Operation)
    → (chosen : List Operation) × (due_adjustments locked now limit table ≡ map adjustment chosen)
      × IsServed locked now limit table chosen
unfolding due_adjustments
due_adjustments-IsFirst locked now limit table =
    let chosen = select_first queue_le (is_eligible locked now) limit table in
    (
      chosen,
      refl,
      IsFirst-IsServed locked now limit table chosen (
          select_first-IsFirst queue_le
            (λ x y h.
              schedule_le_total (schedule_of x.rows.outbox) (schedule_of y.rows.outbox) x.created_at
                y.created_at h)
            (λ x y z h k.
              schedule_le_trans (schedule_of x.rows.outbox) (schedule_of y.rows.outbox)
                (schedule_of z.rows.outbox) x.created_at y.created_at z.created_at h k)
            (is_eligible locked now) limit table),
    )
