-- ===== src/Operations/Queue/Rounds.antt =====
-- operations/retry.py: what any number of passes over the queue, by however many runners one after
-- another, does to its operations.
use ledger_exception_control.Common.{
  ℕ, List, [], ◌∷◌, ◌≡◌, All, map, Distinct, length, contains, refl, Bool-cases, inl, inr, sym,
}
use ledger_exception_control.Common.Int.{ℤ, pos, ◌≤ℤ◌}
use mathlib.Core.Path.{subst}
use ledger_exception_control.Operations.Retry.{RetryPolicy}
use ledger_exception_control.Operations.Retry.Passes.{Counted}
use ledger_exception_control.Operations.Retry.Turns.{take_turn-Counted}
use ledger_exception_control.Operations.Queue.{
  Operation, adjustment, Environment, turn_of, run_due_once,
}
use ledger_exception_control.Operations.Queue.Pass.{turned, run_due_once-refines}

-- A pass: what the world answers, which rows are locked elsewhere, when it is made and its limit.
pub record Round : Type 0 where
  pub env : Environment
  pub locked : List ℕ
  pub now : ℤ
  pub limit : ℕ

unfoldable pub run_rounds : RetryPolicy → List Round → List Operation → List Operation
unfolding run_due_once
run_rounds policy [] table = table
run_rounds policy (r ∷ rs) table =
    run_rounds policy rs (run_due_once policy r.env r.locked r.now r.limit table).1

module _ (policy : RetryPolicy) where
  -- Each adjustment stands once, and its operation keeps the count of `Counted`.
  pub record AreCounted (table : List Operation) : Type 0 where
    pub apart : Distinct (map adjustment table)
    pub counted : All (λ (o : Operation). Counted policy o.rows) table

  turned-id :
      (env : Environment) (now : ℤ) (sent : List ℕ) (o : Operation)
      → (turned policy env now sent o).adjustment_id ≡ o.adjustment_id
  turned-id env now sent o = elim (Bool-cases (contains o.adjustment_id sent)) [
    | inl yes_sent ↦ rw yes_sent refl
    | inr not_sent ↦ rw not_sent refl
  ]

  turned-ids :
      (env : Environment) (now : ℤ) (sent : List ℕ) (table : List Operation)
      → map adjustment (map (turned policy env now sent) table) ≡ map adjustment table
  turned-ids env now sent [] = refl
  turned-ids env now sent (o ∷ table) = cc (turned-id env now sent o, turned-ids env now sent table)

  turned-Counted :
      (env : Environment) (now : ℤ) (sent : List ℕ) (table : List Operation)
      → All (λ (o : Operation). Counted policy o.rows) table
      → All (λ (o : Operation). Counted policy o.rows) (map (turned policy env now sent) table)
  turned-Counted env now sent [] h = tt
  turned-Counted env now sent (o ∷ table) (h, hs) = (
    elim (Bool-cases (contains o.adjustment_id sent)) [
      | inl yes_sent ↦
          rw yes_sent (take_turn-Counted policy o.rows (turn_of env now o.adjustment_id) h)
      | inr not_sent ↦ rw not_sent h
    ],
    turned-Counted env now sent table hs,
  )

  round-AreCounted :
      (r : Round) (table : List Operation)
      → AreCounted table
      → AreCounted (run_due_once policy r.env r.locked r.now r.limit table).1
  round-AreCounted r table v =
      let ((sent, rest, order, tables, all_sent), fit) =
        run_due_once-refines policy r.env r.now r.locked r.limit table v.apart in
      subst AreCounted (sym tables) (record {
        apart = subst Distinct (sym (turned-ids r.env r.now sent table)) v.apart;
        counted = turned-Counted r.env r.now sent table v.counted;
      })

  -- However many passes are made over the queue, whenever they are made, whatever their limits,
  -- whichever rows are locked and whatever the adapter and the draws of the delays do, no operation
  -- of the queue is sent more often than the policy's ceiling, and the queue stays counted, given
  -- that it is at the start: each adjustment stands once, and of each operation the attempts are
  -- numbered from one, are no more than the ceiling, and are fewer while the operation may be
  -- selected, that is, while its intent is pending, none of them is in flight and the last outcome is
  -- not ambiguous; and an intent that is pending has no dead letter.
  pub run_rounds-bounded :
      (rs : List Round) (table : List Operation)
      → AreCounted table
      → AreCounted (run_rounds policy rs table)
        × All
            (λ (o : Operation). pos (length o.rows.attempts) ≤ℤ policy.max_attempts)
            (run_rounds policy rs table)
  unfolding run_rounds
  run_rounds-bounded [] table v = (v, bounds table v.counted)
    where
      bounds :
          (t : List Operation)
          → All (λ (o : Operation). Counted policy o.rows) t
          → All (λ (o : Operation). pos (length o.rows.attempts) ≤ℤ policy.max_attempts) t
      bounds [] h = tt
      bounds (o ∷ t) (h, hs) = (h.within, bounds t hs)
  run_rounds-bounded (r ∷ rs) table v =
      run_rounds-bounded rs (run_due_once policy r.env r.locked r.now r.limit table).1
        (round-AreCounted r table v)
