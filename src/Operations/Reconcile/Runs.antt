-- ===== src/Operations/Reconcile/Runs.antt =====
-- operations/reconcile.py: what `_consecutive_not_found` counts.
use ledger_exception_control.Common.{
  ℕ, ◌≡◌, inl, inr, Bool-cases, arith, ◌≤◌, ◌+◌, ◌-◌, ◌++◌, ◌∷◌, [], List, keep, length, not, max,
  if◌then◌else◌,
}
use ledger_exception_control.Operations.Rows.{ReconciliationQuery}
use ledger_exception_control.Operations.Reconcile.{
  consecutive_not_found, max_query_no, is_not_found,
}

-- The queries are numbered in a row, after `n`.
abbrev pub IsNumbered : ℕ → List ReconciliationQuery → Type 0
IsNumbered n [] = Unit
IsNumbered n (q ∷ more) = (q.query_no ≡ n + 1) × IsNumbered (n + 1) more

-- How many answers at the end are `NotFound`, where `k` stood there before.
abbrev pub run_after : ℕ → List ReconciliationQuery → ℕ
run_after k [] = k
run_after k (q ∷ more) = run_after (if is_not_found q.answer then k + 1 else 0) more

pub numbered-max :
    (n : ℕ) (l : List ReconciliationQuery) → IsNumbered n l → max n (max_query_no l) ≡ n + length l
unfolding max_query_no
numbered-max n [] h = omega arith
numbered-max n (q ∷ l) h = let g = numbered-max (n + 1) l h.1 in let e = h.0 in omega (arith, g, e)

pub IsNumbered-snoc :
    (n : ℕ) (l : List ReconciliationQuery) (q : ReconciliationQuery)
    → IsNumbered n l
    → q.query_no ≡ n + length l + 1
    → IsNumbered n (l ++ q ∷ [])
IsNumbered-snoc n [] q h e = (omega (arith, e), tt)
IsNumbered-snoc n (p ∷ l) q h e = (h.0, IsNumbered-snoc (n + 1) l q h.1 (omega (arith, e)))

consecutive-run_after :
    (n k : ℕ) (l : List ReconciliationQuery)
    → k ≤ n
    → IsNumbered n l
    → max n (max_query_no l)
        - max (n - k) (max_query_no (keep (λ q. not (is_not_found q.answer)) l))
      ≡ run_after k l
unfolding max_query_no
consecutive-run_after n k [] b h = omega (arith, b)
consecutive-run_after n k (q ∷ l) b h = elim (Bool-cases (is_not_found q.answer)) [
  | inl no_hit ↦
      let g = consecutive-run_after (n + 1) (k + 1) l (omega (arith, b)) h.1 in
      let e = h.0 in rw no_hit (omega (arith, g, e))
  | inr other ↦
      let g = consecutive-run_after (n + 1) 0 l (omega arith) h.1 in
      let e = h.0 in rw other (omega (arith, g, e))
]

-- On queries that are numbered in a row from one, `_consecutive_not_found`, the highest number less
-- the highest number of another answer, is the number of `NotFound` answers after the last other one.
pub consecutive_not_found-run :
    (l : List ReconciliationQuery) → IsNumbered 0 l → consecutive_not_found l ≡ run_after 0 l
unfolding consecutive_not_found
consecutive_not_found-run l h =
    let g = consecutive-run_after 0 0 l (omega arith) h in omega (arith, g)
