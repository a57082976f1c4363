-- ===== src/Ledger/Weak.antt =====
-- How often the ledger without a key applies one operation, over any sequence of posts.
use ledger_exception_control.Common.{
  [], ◌∷◌, List, ◌≡◌, map, ◌+◌, arith, Bool-cases, inl, inr, refl,
}
use ledger_exception_control.Ledger.Suppression.{times, Request}
use ledger_exception_control.Ledger.Simulated.{weak_post, NonIdempotentLedger}
use ledger_exception_control.Common.Text.{Text, text_eq}
use ledger_exception_control.Common.Dict.{count_of, count_of-bump, count_of-put_other}

unfoldable pub weak_run : NonIdempotentLedger → List (Text × Request) → NonIdempotentLedger
unfolding weak_post
weak_run s [] = s
weak_run s ((uuid4_hex, r) ∷ rs) =
    weak_run (weak_post uuid4_hex s r.operation_id r.instruction r.injected).1 rs

-- The `NonIdempotentLedger` applies an operation as often as it is posted, whatever the responder
-- answers.
pub weak_run-applications :
    (s : NonIdempotentLedger) (rs : List (Text × Request)) (op : Text)
    → count_of (weak_run s rs).applications op
      ≡ times op (map (λ k. k.1) rs) + count_of s.applications op
unfolding weak_run times
weak_run-applications s [] op = omega arith
weak_run-applications s ((uuid4_hex, r) ∷ rs) op =
    let h =
      weak_run-applications (weak_post uuid4_hex s r.operation_id r.instruction r.injected).1 rs
        op in
    elim (Bool-cases (text_eq r.operation_id op)) [
      | inl e ↦
          let g = count_of-bump s.applications r.operation_id op e in rw (h, e, g) (omega arith)
      | inr e ↦
          rw
            (
              h,
              e,
              count_of-put_other s.applications r.operation_id op
                  (count_of s.applications r.operation_id + 1) e,
            )
            refl
    ]
