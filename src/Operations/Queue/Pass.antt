-- ===== src/Operations/Queue/Pass.antt =====
-- operations/retry.py: that a pass over the queue is a turn at each operation that it sends.
use ledger_exception_control.Common.{
  ℕ, none, some, Option, List, [], ◌∷◌, ◌++◌, ◌==◌, ◌≡◌, contains, map, true, false, refl, arith,
  All, In, if◌then◌else◌, Distinct, Distinct-determines, map-In, contains-In, Bool-cases, inl, inr,
  ==_iff, length, sym, ◌⊎◌, ==_refl, ap, ◌∙◌, suc,
}
use ledger_exception_control.Common.Int.{ℤ}
use ledger_exception_control.Common.Select.{select_first, select_first-In, select_first-Distinct}
use ledger_exception_control.Operations.Rows.{Store}
use ledger_exception_control.Operations.Retry.{RetryPolicy, RetryReport, RetryEnd, is_due}
use ledger_exception_control.Operations.Retry.Passes.{Turn, take_turn}
use ledger_exception_control.Operations.Queue.{
  Operation, adjustment, queue_le, is_eligible, due_adjustments, Environment, turn_of, attempt_of,
  attempt_row, end_among, Pass, with_report, then_attempt, attempt_all, run_due_once,
}
use mathlib.Core.Path.{subst}

-- The table in which each of those adjustments has had its turn, and the others are untouched.
abbrev pub turned : RetryPolicy → Environment → ℤ → List ℕ → Operation → Operation
turned policy env now sent o =
    if contains o.adjustment_id sent
    then (record o { rows = take_turn policy o.rows (turn_of env now o.adjustment_id) })
    else o

-- Whatever stands in the table under one of those identifiers is due.
abbrev DueAt : ℤ → List ℕ → List Operation → Type 0
DueAt now is table =
    All (λ (o : Operation). contains o.adjustment_id is ≡ true → is_due now o.rows ≡ true) table

turn-due :
    (policy : RetryPolicy) (k : Turn) (s : Store)
    → is_due k.now s ≡ true
    → take_turn policy s k ≡ (attempt_of policy k s).1
unfolding take_turn
turn-due policy k s h = rw h refl

prefix-contains : (i : ℕ) (xs ys : List ℕ) → contains i (xs ++ ys) ≡ false → contains i xs ≡ false
prefix-contains i [] ys h = refl
prefix-contains i (x ∷ xs) ys h = ground (arith, prefix-contains i xs ys)

prefix-apart :
    (i : ℕ) (sent rest is : List ℕ)
    → is ≡ sent ++ rest
    → contains i is ≡ false
    → contains i sent ≡ false
prefix-apart i sent rest is e h =
    prefix-contains i sent rest (subst (λ (l : List ℕ). contains i l ≡ false) e h)

all_reported :
    (r : RetryReport) (o : Option (List RetryReport)) (n : ℕ) (rest : List ℕ)
    (reports : List RetryReport)
    → ((rs : List RetryReport) → o ≡ some rs → (rest ≡ []) × (length rs ≡ n))
    → with_report r o ≡ some reports
    → (rest ≡ []) × (length reports ≡ suc n)
all_reported r none n rest reports f h = absurd (cc (h))
all_reported r (some rs) n rest reports f h =
    let (done, count) = f rs refl in
    let eq : r ∷ rs ≡ reports = cc (h) in
    (done, subst (λ (l : List RetryReport). length l ≡ suc n) eq (omega (arith, count)))

module _ (policy : RetryPolicy) (env : Environment) (now : ℤ) where
  turned-own :
      (sent : List ℕ) (o : Operation)
      → contains o.adjustment_id sent ≡ false
      → is_due now o.rows ≡ true
      → turned policy env now sent
          (attempt_row policy (turn_of env now o.adjustment_id) o.adjustment_id o)
        ≡ turned policy env now (o.adjustment_id ∷ sent) o
  turned-own sent o apart due =
      rw (==_refl o.adjustment_id, apart)
        (ap (λ (s : Store). record o { rows = s })
          (sym (turn-due policy (turn_of env now o.adjustment_id) o.rows due)))

  -- A turn at one adjustment, and then at others.
  turned-row :
      (i : ℕ) (sent : List ℕ) (o : Operation)
      → contains i sent ≡ false
      → (contains o.adjustment_id (i ∷ []) ≡ true → is_due now o.rows ≡ true)
      → turned policy env now sent (attempt_row policy (turn_of env now i) i o)
        ≡ turned policy env now (i ∷ sent) o
  turned-row i sent o apart due = elim (Bool-cases (o.adjustment_id == i)) [
    | inl same ↦
        let eq : o.adjustment_id ≡ i = (==_iff o.adjustment_id i).0 same in
        subst
          (λ (j : ℕ).
            turned policy env now sent (attempt_row policy (turn_of env now j) j o)
            ≡ turned policy env now (j ∷ sent) o)
          eq
          (turned-own sent o (subst (λ (j : ℕ). contains j sent ≡ false) (sym eq) apart)
            (due (rw same refl)))
    | inr other ↦ rw other refl
  ]

  turned-cons :
      (i : ℕ) (sent : List ℕ) (table : List Operation)
      → contains i sent ≡ false
      → DueAt now (i ∷ []) table
      → map (turned policy env now sent) (map (attempt_row policy (turn_of env now i) i) table)
        ≡ map (turned policy env now (i ∷ sent)) table
  turned-cons i sent [] apart due = refl
  turned-cons i sent (o ∷ table) apart (due, rest) =
      cc (turned-row i sent o apart due, turned-cons i sent table apart rest)

  DueAt-after :
      (i : ℕ) (is : List ℕ) (table : List Operation)
      → contains i is ≡ false
      → DueAt now (i ∷ is) table
      → DueAt now is (map (attempt_row policy (turn_of env now i) i) table)
  DueAt-after i is [] apart due = tt
  DueAt-after i is (o ∷ table) apart (due, rest) =
      (row (Bool-cases (o.adjustment_id == i)), DueAt-after i is table apart rest)
    where
      row :
          ((o.adjustment_id == i) ≡ true) ⊎ ((o.adjustment_id == i) ≡ false)
          → contains (attempt_row policy (turn_of env now i) i o).adjustment_id is ≡ true
          → is_due now (attempt_row policy (turn_of env now i) i o).rows ≡ true
      row (inl same) =
          let eq : o.adjustment_id ≡ i = (==_iff o.adjustment_id i).0 same in
          rw same (λ h. absurd (cc (h, apart, eq)))
      row (inr other) = rw other (λ h. due (rw (other, h) refl))

  DueAt-head :
      (i : ℕ) (is : List ℕ) (table : List Operation)
      → DueAt now (i ∷ is) table
      → DueAt now (i ∷ []) table
  DueAt-head i is [] due = tt
  DueAt-head i is (o ∷ table) (due, rest) =
      (λ h. due (ground (arith, h)), DueAt-head i is table rest)

  turned-none : (table : List Operation) → map (turned policy env now []) table ≡ table
  turned-none [] = refl
  turned-none (o ∷ table) = cc (turned-none table)

  -- What a pass makes of the table: turns at some of the adjustments, the first ones, and at all of
  -- them where it ends with a report of each.
  abbrev pub Turns : List ℕ → List Operation → Pass → Type 0
  Turns is table r =
      (sent : List ℕ) × (rest : List ℕ) × (is ≡ sent ++ rest)
      × (r.1 ≡ map (turned policy env now sent) table)
      × ((reports : List RetryReport)
          → r.0 ≡ some reports
          → (rest ≡ []) × (length reports ≡ length is))

  attempt_all-Turns :
      (is : List ℕ) (table : List Operation)
      → Distinct is
      → DueAt now is table
      → Turns is table (attempt_all policy env now is table)
  unfolding attempt_all
  attempt_all-Turns [] table d due =
      ([], [], refl, sym (turned-none table), λ reports e. (refl, cc (e)))
  attempt_all-Turns (i ∷ is) table (apart, d) due =
      let k = turn_of env now i in
      after (end_among policy k i table) (
        attempt_all-Turns is (map (attempt_row policy k i) table) d
          (DueAt-after i is table apart due))
    where
      one : List Operation
      one = map (attempt_row policy (turn_of env now i) i) table

      raised : one ≡ map (turned policy env now (i ∷ [])) table → Turns (i ∷ is) table (none, one)
      raised e = (i ∷ [], is, refl, e, λ reports h. absurd (cc (h)))

      first : one ≡ map (turned policy env now (i ∷ [])) table
      first = sym (turned-none one) ∙ turned-cons i [] table refl (DueAt-head i is table due)

      after :
          (e : RetryEnd)
          → Turns is one (attempt_all policy env now is one)
          → Turns (i ∷ is) table (then_attempt e one (attempt_all policy env now is one))
      after (RetryEnd.reported r) (sent, rest, eq, tables, all_sent) = (
        i ∷ sent,
        rest,
        ap (λ (l : List ℕ). i ∷ l) eq,
        tables
            ∙ turned-cons i sent table (prefix-apart i sent rest is eq apart)
                (DueAt-head i is table due),
        λ reports h.
            all_reported r (attempt_all policy env now is one).0 (length is) rest reports all_sent
              h,
      )
      after RetryEnd.missing_intent h = raised first
      after RetryEnd.second_dead_letter h = raised first
      after RetryEnd.unrecognised_outcome h = raised first

  selected-fit :
      (locked : List ℕ) (limit : ℕ) (table : List Operation) (o : Operation)
      → Distinct (map adjustment table)
      → In o table
      → contains o.adjustment_id (due_adjustments locked now limit table) ≡ true
      → is_eligible locked now o ≡ true
  unfolding due_adjustments
  selected-fit locked limit table o d m h =
      let chosen = select_first queue_le (is_eligible locked now) limit table in
      let (a, n, e) =
        map-In adjustment o.adjustment_id chosen
          (contains-In o.adjustment_id (map adjustment chosen) h) in
      let (l, fit) = select_first-In queue_le (is_eligible locked now) limit table a n in
      let same : o ≡ a = Distinct-determines adjustment o a table d m l e in
      subst (λ (x : Operation). is_eligible locked now x ≡ true) (sym same) fit

  selected-Distinct :
      (locked : List ℕ) (limit : ℕ) (table : List Operation)
      → Distinct (map adjustment table)
      → Distinct (due_adjustments locked now limit table)
  unfolding due_adjustments
  selected-Distinct locked limit table d =
      select_first-Distinct queue_le (is_eligible locked now) limit adjustment table d

  eligible-due :
      (locked : List ℕ) (o : Operation) → is_eligible locked now o ≡ true → is_due now o.rows ≡ true
  eligible-due locked o h = ground (arith, h)

  DueAt-among :
      (is : List ℕ) (table : List Operation)
      → ((o : Operation)
          → In o table
          → contains o.adjustment_id is ≡ true
          → is_due now o.rows ≡ true)
      → DueAt now is table
  DueAt-among is [] f = tt
  DueAt-among is (o ∷ table) f = (f o (inl refl), DueAt-among is table (λ a m. f a (inr m)))

  -- A pass of `run_due_once` over a table in which no adjustment stands twice is one turn at each of
  -- the operations that it attempts, with what their own rows say alone, and leaves every other
  -- operation as it was. It attempts those that `due_adjustments` selects, which are due and not
  -- locked, in their order: all of them, with a report of each, or, where one raises, those up to it.
  pub run_due_once-refines :
      (locked : List ℕ) (limit : ℕ) (table : List Operation)
      → Distinct (map adjustment table)
      → Turns
          (due_adjustments locked now limit table)
          table
          (run_due_once policy env locked now limit table)
        × ((o : Operation)
            → In o table
            → contains o.adjustment_id (due_adjustments locked now limit table) ≡ true
            → is_eligible locked now o ≡ true)
  unfolding run_due_once
  run_due_once-refines locked limit table d =
      let is = due_adjustments locked now limit table in
      (
        attempt_all-Turns is table (selected-Distinct locked limit table d) (
            DueAt-among is table
              (λ o m h. eligible-due locked o (selected-fit locked limit table o d m h))),
        λ o m h. selected-fit locked limit table o d m h,
      )
