-- ===== src/Operations/Queue/Tests.antt =====
-- A queue of three operations, of which one is locked elsewhere.
use ledger_exception_control.Common.{
  ℕ, List, [], ◌∷◌, ◌≡◌, true, refl, map, All, In, contains, length, Distinct,
}
use ledger_exception_control.Common.Int.{ℤ, pos, ◌≤ℤ◌}
use ledger_exception_control.Control.{ExceptionClassification}
use ledger_exception_control.Operations.Tests.{enqueued}
use ledger_exception_control.Operations.Retry.Tests.{three_attempts, turn_at, enqueued-Counted}
use ledger_exception_control.Operations.Queue.{
  Operation, adjustment, is_eligible, Environment, due_adjustments, run_due_once,
}
use ledger_exception_control.Operations.Queue.Pass.{Turns, run_due_once-refines}
use ledger_exception_control.Operations.Queue.Rounds.{
  Round, AreCounted, run_rounds, run_rounds-bounded,
}
use ledger_exception_control.Operations.Queue.First.{IsServed, due_adjustments-IsFirst}
use ledger_exception_control.Operations.Claim.{
  ExceptionRow, run_claims, run_claims-Distinct, ExceptionStatus,
}

abbrev operation : ℕ → ℤ → Operation
operation adjustment_id created_at = record {
  adjustment_id = adjustment_id;
  created_at = created_at;
  rows = enqueued;
}

abbrev table : List Operation
table = operation 1 (pos 30) ∷ operation 2 (pos 10) ∷ operation 3 (pos 20) ∷ []

abbrev env : Environment
env i = turn_at (pos 0)

-- The oldest first, and the locked one skipped.
two_due : due_adjustments (3 ∷ []) (pos 50) 5 table ≡ 2 ∷ 1 ∷ []
unfolding due_adjustments
two_due = refl

due_adjustments-IsFirst_example :
    (chosen : List Operation) × (due_adjustments (3 ∷ []) (pos 50) 1 table ≡ map adjustment chosen)
    × IsServed (3 ∷ []) (pos 50) 1 table chosen
due_adjustments-IsFirst_example = due_adjustments-IsFirst (3 ∷ []) (pos 50) 1 table

run_due_once-refines_example :
    Turns three_attempts env
      (pos 50)
      (due_adjustments (3 ∷ []) (pos 50) 5 table)
      table
      (run_due_once three_attempts env (3 ∷ []) (pos 50) 5 table)
    × ((o : Operation)
        → In o table
        → contains o.adjustment_id (due_adjustments (3 ∷ []) (pos 50) 5 table) ≡ true
        → is_eligible (3 ∷ []) (pos 50) o ≡ true)
run_due_once-refines_example =
    run_due_once-refines three_attempts env (pos 50) (3 ∷ []) 5 table (refl, (refl, (refl, tt)))

abbrev round_at : ℤ → Round
round_at now = record { env = env; locked = []; now = now; limit = 2 }

abbrev rounds : List Round
rounds = round_at (pos 50) ∷ round_at (pos 60) ∷ round_at (pos 70) ∷ []

run_rounds-bounded_example :
    AreCounted three_attempts (run_rounds three_attempts rounds table)
    × All
        (λ (o : Operation). pos (length o.rows.attempts) ≤ℤ three_attempts.max_attempts)
        (run_rounds three_attempts rounds table)
run_rounds-bounded_example = run_rounds-bounded three_attempts rounds table (record {
  apart = (refl, (refl, (refl, tt)));
  counted = (enqueued-Counted, (enqueued-Counted, (enqueued-Counted, tt)));
})

abbrev exception : ℕ → ℤ → ExceptionRow
exception id created_at = record {
  id = id;
  classification = ExceptionClassification.fee_split;
  status = ExceptionStatus.open_exception;
  created_at = created_at;
}

abbrev exceptions : List ExceptionRow
exceptions = exception 4 (pos 9) ∷ exception 5 (pos 7) ∷ exception 6 (pos 7) ∷ []

-- Of three workers the second asks for nothing, and is refused.
three_claims : run_claims [] (pos 2 ∷ pos 0 ∷ pos 2 ∷ []) exceptions ≡ 4 ∷ 5 ∷ 6 ∷ []
unfolding run_claims
three_claims = refl

run_claims-Distinct_example : Distinct (run_claims [] (pos 2 ∷ pos 0 ∷ pos 2 ∷ []) exceptions)
run_claims-Distinct_example =
    run_claims-Distinct [] (pos 2 ∷ pos 0 ∷ pos 2 ∷ []) exceptions (refl, (refl, (refl, tt))) tt
