-- ===== src/Operations/Approval/Decisions.antt =====
-- operations/approval.py: what a recorded decision rests on.
use ledger_exception_control.Common.{
  none, some, Option, true, false, List, ◌∷◌, any, not, ◌≡◌, ◌==◌, arith, ◌||◌, Bool, [], refl,
  if-cases,
}
use ledger_exception_control.Operations.Recovery.{may_record_decision, may_authorise}
use ledger_exception_control.Operations.Approval.{
  ApprovalDecision, ApprovalRow, Book, DecisionRequest, DecisionEnd, decided, refusal_of, row_of,
  token_taken, version_taken, requires_treatment, authorises_a_posting, is_some,
  supersession_is_blocked, check_requester, declined, record_decision, version_not_positive,
  ApprovalRefusal, conflict, insert_unless, write_unless,
}
use ledger_exception_control.Common.Int.{pos, ltb_ℤ}
use ledger_exception_control.Common.Text.{Text, text_eq}

-- A request of an edit is another principal's, and only an edit has one.
abbrev pub IsCountersigned : ApprovalDecision → Text → Option Text → Type 0
IsCountersigned ApprovalDecision.edited principal none = ⊥
IsCountersigned ApprovalDecision.edited principal (some requester) =
    text_eq requester principal ≡ false
IsCountersigned _ principal none = Unit
IsCountersigned _ principal (some requester) = ⊥

-- The check constraints of a row.
abbrev pub IsCoherent : ApprovalRow → Type 0
IsCoherent a =
    (requires_treatment a.decision ≡ is_some a.approved_treatment)
    × IsCountersigned a.decision a.principal a.requested_by
    × (ltb_ℤ a.resolution_version (pos 1) ≡ false)

-- A row has a token and a resolution of its own among others.
abbrev pub IsFresh : List ApprovalRow → ApprovalRow → Type 0
IsFresh rows a = (token_taken rows a ≡ false) × (version_taken rows a ≡ false)

abbrev pub IsAuthorised : Book → DecisionRequest → Type 0
IsAuthorised b r =
    (may_record_decision r.principal ≡ true)
    × (not (authorises_a_posting r.decision) || may_authorise r.principal ≡ true)
    × (any (λ e. e == r.exception_id) b.exceptions ≡ true)
    × (supersession_is_blocked r.exception_id r.resolution_version b.operations ≡ false)

abbrev pub IsDecided : Book → DecisionRequest → DecisionEnd × Book → Type 0
IsDecided b r (decided a, c) =
    (a ≡ row_of r)
    × (c.approvals ≡ a ∷ b.approvals)
    × IsAuthorised b r
    × IsCoherent (row_of r)
    × IsFresh b.approvals (row_of r)
IsDecided b r (_, c) = c ≡ b

countersigned :
    (d : ApprovalDecision) (principal : Text) (requester : Option Text)
    → check_requester d principal requester ≡ none
    → IsCountersigned d principal requester
countersigned ApprovalDecision.edited principal none e = absurd (cc (e))
countersigned ApprovalDecision.edited principal (some requester) e = ground (arith, e)
countersigned ApprovalDecision.approved principal none e = tt
countersigned ApprovalDecision.approved principal (some requester) e = absurd (cc (e))
countersigned ApprovalDecision.rejected principal none e = tt
countersigned ApprovalDecision.rejected principal (some requester) e = absurd (cc (e))

refusal_of-none :
    (b : Book) (r : DecisionRequest)
    → refusal_of b r ≡ none
    → IsAuthorised b r
      × (requires_treatment r.decision ≡ is_some r.treatment)
      × (check_requester r.decision r.principal.id r.requested_by ≡ none)
unfolding refusal_of
refusal_of-none b r e = ground (arith, e)

conflict-none :
    (token_first x y : Bool) → conflict token_first x y ≡ none → (x ≡ false) × (y ≡ false)
conflict-none token_first true true e = absurd (cc (e))
conflict-none token_first true false e = absurd (cc (e))
conflict-none token_first false true e = absurd (cc (e))
conflict-none token_first false false e = (refl, refl)

-- `record_decision` records a decision only of a principal who may record one, and, where it authorises
-- a posting, who may authorise it; on an exception that exists, and on which no earlier operation is
-- in flight, ambiguous without ever having been in recovery, or open in recovery; with a treatment
-- exactly where it authorises a posting, a requester other than the principal exactly where it is an
-- edit, and a version of at least one; and with a token and a resolution that no approval has. With
-- every other ending nothing is written.
pub record_decision-IsDecided :
    (token_first : Bool) (b : Book) (r : DecisionRequest)
    → IsDecided b r (record_decision token_first b r)
unfolding record_decision
record_decision-IsDecided token_first b r = go (refusal_of b r) refl
  where
    fresh :
        (o : Option ApprovalRefusal)
        → conflict token_first
            (token_taken b.approvals (row_of r))
            (version_taken b.approvals (row_of r))
          ≡ o
        → refusal_of b r ≡ none
        → ltb_ℤ r.resolution_version (pos 1) ≡ false
        → IsDecided b r (insert_unless b r o)
    fresh (some refusal) k e v = refl
    fresh none k e v =
        let (auth, t, c) = refusal_of-none b r e in
        (
          refl,
          refl,
          auth,
          (t, countersigned r.decision r.principal.id r.requested_by c, v),
          conflict-none token_first _ _ k,
        )

    go :
        (o : Option ApprovalRefusal)
        → refusal_of b r ≡ o
        → IsDecided b r (write_unless token_first b r o)
    go (some refusal) e = refl
    go none e =
        if-cases (IsDecided b r) (ltb_ℤ r.resolution_version (pos 1)) (λ low. refl)
          (λ v. fresh _ refl e v)

-- The approvals obey the constraints of the table.
abbrev pub AreSound : List ApprovalRow → Type 0
AreSound [] = Unit
AreSound (a ∷ rows) = IsCoherent a × IsFresh rows a × AreSound rows

abbrev pub run_decisions : Bool → Book → List DecisionRequest → Book
run_decisions token_first b [] = b
run_decisions token_first b (r ∷ rs) =
    run_decisions token_first (record_decision token_first b r).1 rs

decided-AreSound :
    (b : Book) (r : DecisionRequest) (res : DecisionEnd × Book)
    → IsDecided b r res
    → AreSound b.approvals
    → AreSound res.1.approvals
decided-AreSound b r (decided a, c) (e, f, auth, coherent, fresh) h = rw (f, e) (coherent, fresh, h)
decided-AreSound b r (declined refusal, c) e h = rw e h
decided-AreSound b r (version_not_positive, c) e h = rw e h

-- Whatever decisions are requested, one after another, the approvals stay coherent, no token is used
-- twice and no resolution of an exception is decided twice, given that this held at the start.
pub run_decisions-AreSound :
    (token_first : Bool) (b : Book) (rs : List DecisionRequest)
    → AreSound b.approvals
    → AreSound (run_decisions token_first b rs).approvals
run_decisions-AreSound token_first b [] h = h
run_decisions-AreSound token_first b (r ∷ rs) h =
    run_decisions-AreSound token_first (record_decision token_first b r).1 rs (
      decided-AreSound b r (record_decision token_first b r)
        (record_decision-IsDecided token_first b r) h)
