-- ===== src/Ledger/Suppression.antt =====
-- How often the simulated ledger applies one operation, over any sequence of posts.
use ledger_exception_control.Common.{
  none, some, Option, ◌≡◌, List, ◌∷◌, ℕ, ◌+◌, if◌then◌else◌, ◌≤◌, [], arith, refl, suc, Bool-cases,
  ap, inl, sym, inr,
}
use ledger_exception_control.Ledger.Simulated.{
  post, answer, new_ledger, applied_count, receive, apply_posting, SimulatedLedger,
  posts_received_for, AppliedPosting, get_by_operation_id, found_or_not, posting_of,
}
use ledger_exception_control.Common.Text.{Text, text_eq, text_eq→eq}
use ledger_exception_control.Common.Dict.{
  get, count_of, count_of-put, get-put, get-put_other, count_of-put_other,
}
use ledger_exception_control.Ledger.Port.{PostingInstruction, PostingOutcome, QueryOutcome}

-- A call of `post`: its arguments, and what the responder answers if it is asked.
pub record Request : Type 0 where
  pub operation_id : Text
  pub instruction : PostingInstruction
  pub injected : Option PostingOutcome

unfoldable pub run : (Text → Text) → SimulatedLedger → List Request → SimulatedLedger
unfolding post
run uuid5_hex s [] = s
run uuid5_hex s (r ∷ rs) =
    run uuid5_hex (post uuid5_hex s r.operation_id r.instruction r.injected).1 rs

unfoldable pub times : Text → List Request → ℕ
times operation_id [] = 0
times operation_id (r ∷ rs) =
    let rest = times operation_id rs in
    if text_eq r.operation_id operation_id then suc rest else rest

-- An operation has been counted once if its posting is kept, and else not at all.
abbrev pub applications_of : Option AppliedPosting → ℕ
applications_of none = 0
applications_of (some a) = 1

abbrev pub Consistent : SimulatedLedger → Type 0
Consistent s = (op : Text) → applied_count s op ≡ applications_of (get s.applied op)

new_ledger-Consistent : Consistent new_ledger
unfolding applied_count get count_of
new_ledger-Consistent op = refl

-- Each of the three ways on keeps the count right, where `o` is what is kept of the operation.
answer-Consistent :
    (uuid5_hex : Text → Text) (s : SimulatedLedger) (key : Text) (i : PostingInstruction)
    (o : Option AppliedPosting) (injected : Option PostingOutcome)
    → get s.applied key ≡ o
    → Consistent s
    → Consistent (answer uuid5_hex s key i o injected).1
unfolding answer apply_posting applied_count
answer-Consistent uuid5_hex s key i (some a) injected h c op = c op
answer-Consistent uuid5_hex s key i none (some outcome) h c op = c op
answer-Consistent uuid5_hex s key i none none h c op = elim (Bool-cases (text_eq key op)) [
  | inl e ↦
      rw
        (
          sym (text_eq→eq key op e),
          count_of-put s.application_count key (count_of s.application_count key + 1),
          get-put s.applied key (posting_of uuid5_hex key i),
          c key,
          h,
        )
        refl
  | inr e ↦
      rw
        (
          count_of-put_other s.application_count key op (count_of s.application_count key + 1) e,
          get-put_other s.applied key op (posting_of uuid5_hex key i) e,
        )
        (c op)
]

post-Consistent :
    (uuid5_hex : Text → Text) (s : SimulatedLedger) (r : Request)
    → Consistent s
    → Consistent (post uuid5_hex s r.operation_id r.instruction r.injected).1
unfolding post receive applied_count
post-Consistent uuid5_hex s r c =
    answer-Consistent uuid5_hex (receive s r.operation_id) r.operation_id r.instruction
      (get s.applied r.operation_id) r.injected refl c

run-Consistent :
    (uuid5_hex : Text → Text) (s : SimulatedLedger) (rs : List Request)
    → Consistent s
    → Consistent (run uuid5_hex s rs)
unfolding run
run-Consistent uuid5_hex s [] c = c
run-Consistent uuid5_hex s (r ∷ rs) c =
    run-Consistent uuid5_hex (post uuid5_hex s r.operation_id r.instruction r.injected).1 rs
      (post-Consistent uuid5_hex s r c)

-- Over any sequence of posts to a new `SimulatedLedger`, whatever its responder answers, no
-- operation is applied more than once.
pub run-applied_once :
    (uuid5_hex : Text → Text) (rs : List Request) (op : Text)
    → applied_count (run uuid5_hex new_ledger rs) op ≤ 1
run-applied_once uuid5_hex rs op =
    let c = run-Consistent uuid5_hex new_ledger rs new_ledger-Consistent op in ground arith

-- No way on moves the receipts.
answer-receipts :
    (uuid5_hex : Text → Text) (s : SimulatedLedger) (key : Text) (i : PostingInstruction)
    (o : Option AppliedPosting) (injected : Option PostingOutcome)
    → (answer uuid5_hex s key i o injected).1.receipt_count ≡ s.receipt_count
unfolding answer apply_posting
answer-receipts uuid5_hex s key i (some a) injected = refl
answer-receipts uuid5_hex s key i none (some outcome) = refl
answer-receipts uuid5_hex s key i none none = refl

post-receipts :
    (uuid5_hex : Text → Text) (s : SimulatedLedger) (r : Request) (op : Text)
    → posts_received_for (post uuid5_hex s r.operation_id r.instruction r.injected).1 op ≡ (
        if text_eq r.operation_id op
        then suc (posts_received_for s op)
        else posts_received_for s op)
unfolding post receive posts_received_for
post-receipts uuid5_hex s r op =
    rw
      (answer-receipts uuid5_hex (receive s r.operation_id) r.operation_id r.instruction
        (get s.applied r.operation_id) r.injected)
      (elim (Bool-cases (text_eq r.operation_id op)) [
        | inl e ↦
            rw
              (
                e,
                sym (text_eq→eq r.operation_id op e),
                count_of-put s.receipt_count r.operation_id
                    (count_of s.receipt_count r.operation_id + 1),
              )
              (omega arith)
        | inr e ↦
            rw
              (
                e,
                count_of-put_other s.receipt_count r.operation_id op
                    (count_of s.receipt_count r.operation_id + 1) e,
              )
              refl
      ])

-- The receipts of an operation are the posts of it.
pub run-receipts :
    (uuid5_hex : Text → Text) (s : SimulatedLedger) (rs : List Request) (op : Text)
    → posts_received_for (run uuid5_hex s rs) op ≡ times op rs + posts_received_for s op
unfolding run times
run-receipts uuid5_hex s [] op = omega arith
run-receipts uuid5_hex s (r ∷ rs) op =
    let h =
      run-receipts uuid5_hex (post uuid5_hex s r.operation_id r.instruction r.injected).1 rs op in
    let g = post-receipts uuid5_hex s r op in ground arith

-- Every way on keeps a posting that is there.
answer-kept :
    (uuid5_hex : Text → Text) (s : SimulatedLedger) (key : Text) (i : PostingInstruction)
    (o : Option AppliedPosting) (injected : Option PostingOutcome) (op : Text) (a : AppliedPosting)
    → get s.applied key ≡ o
    → get s.applied op ≡ some a
    → get (answer uuid5_hex s key i o injected).1.applied op ≡ some a
unfolding answer apply_posting
answer-kept uuid5_hex s key i (some b) injected op a h k = k
answer-kept uuid5_hex s key i none (some outcome) op a h k = k
answer-kept uuid5_hex s key i none none op a h k = elim (Bool-cases (text_eq key op)) [
  | inl e ↦ absurd (cc (h, k, text_eq→eq key op e))
  | inr e ↦ rw (get-put_other s.applied key op (posting_of uuid5_hex key i) e) k
]

post-kept :
    (uuid5_hex : Text → Text) (s : SimulatedLedger) (r : Request) (op : Text) (a : AppliedPosting)
    → get s.applied op ≡ some a
    → get (post uuid5_hex s r.operation_id r.instruction r.injected).1.applied op ≡ some a
unfolding post receive
post-kept uuid5_hex s r op a h =
    answer-kept uuid5_hex (receive s r.operation_id) r.operation_id r.instruction
      (get s.applied r.operation_id) r.injected op a refl h

run-kept :
    (uuid5_hex : Text → Text) (s : SimulatedLedger) (rs : List Request) (op : Text)
    (a : AppliedPosting)
    → get s.applied op ≡ some a
    → get (run uuid5_hex s rs).applied op ≡ some a
unfolding run
run-kept uuid5_hex s [] op a h = h
run-kept uuid5_hex s (r ∷ rs) op a h =
    run-kept uuid5_hex (post uuid5_hex s r.operation_id r.instruction r.injected).1 rs op a
      (post-kept uuid5_hex s r op a h)

-- Once an operation is applied, then after any further posts a post of it, with whatever
-- instruction, is confirmed with the reference of the first application, applies nothing, and a
-- query finds that reference.
pub run-suppresses :
    (uuid5_hex : Text → Text) (s : SimulatedLedger) (rs : List Request) (op : Text)
    (a : AppliedPosting)
    → get s.applied op ≡ some a
    → (instruction : PostingInstruction) (injected : Option PostingOutcome)
    → let now = run uuid5_hex s rs in
      let again = post uuid5_hex now op instruction injected in
      (again.0 ≡ PostingOutcome.confirmed a.posting_ref)
      × ((other : Text) → applied_count again.1 other ≡ applied_count now other)
      × (get_by_operation_id again.1 op none ≡ QueryOutcome.found a.posting_ref)
unfolding post answer receive applied_count get_by_operation_id
run-suppresses uuid5_hex s rs op a h instruction injected =
    rw (run-kept uuid5_hex s rs op a h)
      (refl, λ other. refl, ap found_or_not (run-kept uuid5_hex s rs op a h))
