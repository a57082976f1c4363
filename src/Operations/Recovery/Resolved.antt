-- ===== src/Operations/Recovery/Resolved.antt =====
-- operations/recovery.py: what `resolve_item` asks for and what it writes.
use ledger_exception_control.Common.{
  ℕ, none, some, Option, ◌≡◌, true, false, refl, not, if-cases, not-false, arith, List, ◌≢◌, ◌∷◌,
  length, ◌≤◌, Bool-cases, ◌==◌, inl, ap, inr, [],
}
use ledger_exception_control.Control.{OutcomeCode, RecoveryResolution, RecoveryState, DispatchState}
use ledger_exception_control.Operations.Rows.{Store, Outbox, RecoveryItem}
use ledger_exception_control.Operations.Recovery.{
  Principal, RecoveryEnd, RecoveryRefusal, recovered, resolve_item, after_check, resolve_found,
  after_evidence, settle_by_evidence, settle_intent_as, settled_code, check_reference, find_item,
  is_open, is_operations_role, rewrite_item, judge,
}
use ledger_exception_control.Common.Int.{ℤ}
use ledger_exception_control.Common.Text.{Text, text_eq, is_blank}

find_item-rewrite_item :
    (n : ℕ) (who : Text) (r : RecoveryResolution) (now : ℤ) (i : RecoveryItem)
    (items : List RecoveryItem)
    → find_item n items ≡ some i
    → find_item n (rewrite_item n (judge who r now) items) ≡ some (judge who r now i)
find_item-rewrite_item n who r now i [] e = absurd (cc (e))
find_item-rewrite_item n who r now i (x ∷ items) e = elim (Bool-cases (x.id == n)) [
  | inl same ↦
      let k : x ≡ i = ground (arith, same, e) in
      rw (same, same) (ap (λ y. some (judge who r now y)) k)
  | inr other ↦
      rw (other, other) (find_item-rewrite_item n who r now i items (ground (arith, other, e)))
]

find_item-others :
    (n k : ℕ) (who : Text) (r : RecoveryResolution) (now : ℤ) (items : List RecoveryItem)
    → k ≢ n
    → find_item k (rewrite_item n (judge who r now) items) ≡ find_item k items
find_item-others n k who r now [] d = refl
find_item-others n k who r now (x ∷ items) d = elim (Bool-cases (x.id == n)) [
  | inl same ↦ let away : (x.id == k) ≡ false = ground (arith, same, d) in rw (same, away) refl
  | inr other ↦ elim (Bool-cases (x.id == k)) [
    | inl here ↦ rw (other, here) refl
    | inr away ↦ rw (other, away) (find_item-others n k who r now items d)
  ]
]

-- The intent is closed with an outcome, and nothing else of it changes.
abbrev pub IsClosedAs : OutcomeCode → Store → Store → Type 0
IsClosedAs code s t =
    (o : Outbox) × (s.outbox ≡ some o)
    × (t.outbox ≡ some (record o { state = DispatchState.settled; last_outcome = some code }))

-- What each resolution asks of the reference, and what it makes of the intent and the reference.
abbrev pub IsEnacted : RecoveryResolution → Option Text → Store → Store → Type 0
IsEnacted RecoveryResolution.confirmed_by_evidence ref s t =
    (r : Text) × (ref ≡ some r)
    × (is_blank r ≡ false)
    × (length r ≤ 128)
    × IsClosedAs OutcomeCode.confirmed s t
    × (t.posting_ref ≡ some r)
IsEnacted RecoveryResolution.rejected_by_evidence ref s t =
    (ref ≡ none) × IsClosedAs OutcomeCode.rejected s t × (t.posting_ref ≡ s.posting_ref)
IsEnacted RecoveryResolution.resolved_unverified ref s t =
    (ref ≡ none) × (t.outbox ≡ s.outbox) × (t.posting_ref ≡ s.posting_ref)

-- The item carries the judgement, who made it and when; the other items stand.
abbrev pub IsJudged :
    ℕ
    → Principal
    → RecoveryResolution
    → ℤ
    → RecoveryItem
    → List RecoveryItem
    → List RecoveryItem
    → Type 0
IsJudged item_id p resolution now i before after =
    (find_item item_id after
      ≡ some (record i {
        state = RecoveryState.resolved;
        resolution = some resolution;
        resolved_by = some p.id;
        resolved_at = some now;
      }))
    × ((k : ℕ) → k ≢ item_id → find_item k after ≡ find_item k before)

abbrev pub IsResolved :
    ℕ → Principal → RecoveryResolution → ℤ → Option Text → Store → RecoveryEnd × Store → Type 0
IsResolved item_id p resolution now ref s (recovered v, t) =
    (is_operations_role p.role ≡ true)
    × ((i : RecoveryItem) × (find_item item_id s.recovery ≡ some i)
        × (is_open i ≡ true)
        × (text_eq p.id i.approving_principal ≡ false)
        × IsJudged item_id p resolution now i s.recovery t.recovery)
    × IsEnacted resolution ref s t
    × (t.attempts ≡ s.attempts)
IsResolved item_id p resolution now ref s (_, t) = t ≡ s

-- The item as the rewriting of the table leaves it.
judged :
    (item_id : ℕ) (p : Principal) (r : RecoveryResolution) (now : ℤ) (i : RecoveryItem)
    (items : List RecoveryItem)
    → find_item item_id items ≡ some i
    → IsJudged item_id p r now i items (rewrite_item item_id (judge p.id r now) items)
judged item_id p r now i items e = (
  find_item-rewrite_item item_id p.id r now i items e,
  λ n d. find_item-others item_id n p.id r now items d,
)

-- An open item of an adjustment that another principal approved, in an operator's hands.
module _ (item_id : ℕ) (p : Principal) (now : ℤ) (s : Store) (i : RecoveryItem)
    (able : is_operations_role p.role ≡ true) (found : find_item item_id s.recovery ≡ some i)
    (free : is_open i ≡ true) (other : text_eq p.id i.approving_principal ≡ false) where
  confirmed-IsResolved :
      (r : Text) (o : Option Outbox)
      → is_blank r ≡ false
      → length r ≤ 128
      → s.outbox ≡ o
      → IsResolved item_id p RecoveryResolution.confirmed_by_evidence now (some r) s (
          after_evidence item_id p.id RecoveryResolution.confirmed_by_evidence now i s
            (settle_intent_as OutcomeCode.confirmed (some r) s o))
  confirmed-IsResolved r none b l c = refl
  confirmed-IsResolved r (some o) b l c = (
    able,
    (
      i,
      found,
      free,
      other,
      judged item_id p RecoveryResolution.confirmed_by_evidence now i s.recovery found,
    ),
    (r, refl, b, l, (o, c, refl), refl),
    refl,
  )

  rejected-IsResolved :
      (o : Option Outbox)
      → s.outbox ≡ o
      → IsResolved item_id p RecoveryResolution.rejected_by_evidence now none s (
          after_evidence item_id p.id RecoveryResolution.rejected_by_evidence now i s
            (settle_intent_as OutcomeCode.rejected none s o))
  rejected-IsResolved none c = refl
  rejected-IsResolved (some o) c = (
    able,
    (
      i,
      found,
      free,
      other,
      judged item_id p RecoveryResolution.rejected_by_evidence now i s.recovery found,
    ),
    (refl, (o, c, refl), refl),
    refl,
  )

  evidence-IsResolved :
      (resolution : RecoveryResolution) (ref : Option Text)
      → check_reference resolution ref ≡ none
      → IsResolved item_id p resolution now ref s (
          after_evidence item_id p.id resolution now i s
            (settle_by_evidence (settled_code resolution) ref s))
  unfolding check_reference
  evidence-IsResolved RecoveryResolution.confirmed_by_evidence none k = absurd (cc (k))
  evidence-IsResolved RecoveryResolution.confirmed_by_evidence (some r) k =
      confirmed-IsResolved r s.outbox (ground (arith, k)) (ground (arith, k)) refl
  evidence-IsResolved RecoveryResolution.rejected_by_evidence none k =
      rejected-IsResolved s.outbox refl
  evidence-IsResolved RecoveryResolution.rejected_by_evidence (some r) k = absurd (cc (k))
  evidence-IsResolved RecoveryResolution.resolved_unverified none k = (
    able,
    (
      i,
      found,
      free,
      other,
      judged item_id p RecoveryResolution.resolved_unverified now i s.recovery found,
    ),
    (refl, refl, refl),
    refl,
  )
  evidence-IsResolved RecoveryResolution.resolved_unverified (some r) k = absurd (cc (k))

module _ (item_id : ℕ) (p : Principal) (resolution : RecoveryResolution) (now : ℤ)
    (ref : Option Text) (s : Store) where
  abbrev Q : RecoveryEnd × Store → Type 0
  Q = IsResolved item_id p resolution now ref s

  -- `resolve_item` records a judgement only of an operator, on an open item of an adjustment that
  -- another principal approved; the item then carries the judgement with its author and time, and
  -- the other items stand. A confirmation asks for a reference, not blank and of at most 128
  -- characters, closes the intent as confirmed and leaves the reference on the adjustment; a rejection
  -- asks for none and closes the intent as rejected; an unverified resolution asks for none and leaves
  -- the intent. Neither of these touches the reference, and none the attempts. With every other ending
  -- nothing is written.
  pub resolve_item-resolved : Q (resolve_item item_id p resolution now ref s)
  unfolding resolve_item
  resolve_item-resolved =
      if-cases Q (not (is_operations_role p.role)) (λ barred. refl)
        (λ able. checked able (check_reference resolution ref) refl)
    where
      found :
          is_operations_role p.role ≡ true
          → check_reference resolution ref ≡ none
          → (o : Option RecoveryItem) → find_item item_id s.recovery ≡ o
          → Q (resolve_found item_id p.id resolution now ref s o)
      found able k none e = refl
      found able k (some i) e =
          if-cases Q (not (is_open i)) (λ shut. refl)
            (λ free.
              if-cases Q (text_eq p.id i.approving_principal) (λ own. refl)
                (λ other.
                  evidence-IsResolved item_id p now s i able e (not-false free) other resolution ref
                    k))

      checked :
          not (is_operations_role p.role) ≡ false
          → (o : Option RecoveryRefusal) → check_reference resolution ref ≡ o
          → Q (after_check item_id p.id resolution now ref s o)
      checked able (some refusal) k = refl
      checked able none k = found (not-false able) k (find_item item_id s.recovery) refl
