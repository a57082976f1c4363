-- ===== src/Classification/Order.antt =====
-- The decisions do not depend on the order of the movements around the residuals, and a residual
-- without a merchant reference is related to nothing.
use ledger_exception_control.Common.{
  ℕ, List, Bool, In, contains, ◌≡◌, inl, ◌∷◌, arith, ◌∙◌, ap, inr, ◌==◌, ◌||◌, [], length, ◌⊎◌, any,
  refl, ◌&&◌, not, Option, ◌++◌, some, none,
}
use ledger_exception_control.Classification.Engine.{
  SettlementMovement, first_seen, sum, in_other_period, maximum, fires, covers,
  reversal_of_booked_chargeback_rule, refund_of_booked_capture_rule,
  fees_deducted_from_a_capture_rule, booked_offsets_of_type, any_booked_offset, unreconciled_group,
  inflows, deductions, is_booked_offset, classify, relate, decide, related_by, winner, same_key,
  Evidence,
}
use mathlib.Core.List.{Permᴰ}
use mathlib.Core.List.Permᴰ
use ledger_exception_control.Common.Date.{Date}
use ledger_exception_control.Common.Int.{ℤ, int_laws, ltb_ℤ, eq_ℤ, negate, pos}
use ledger_exception_control.Classification.Taxonomy.{
  ClassificationRule, is_kind, chargeback, capture, fee, reversal_of_booked_chargeback,
  refund_of_booked_capture_across_periods, fees_deducted_from_a_capture, no_rule_matched,
}
use ledger_exception_control.Common.Text.{Text}
use mathlib.Core.Path.{fun_ext}
use ledger_exception_control.Common.Perm.{keep-perm, perm-In, length-perm, map-perm, any-perm}

-- Movements of one identifier are one movement.
abbrev pub Identified : List SettlementMovement → Type 0
Identified ms = (m n : SettlementMovement) → In m ms → In n ms → m.id ≡ n.id → m ≡ n

first_seen-cong :
    (s t : List ℕ) (ms : List SettlementMovement)
    → ((k : ℕ) → contains k s ≡ contains k t)
    → first_seen s ms ≡ first_seen t ms
unfolding first_seen
first_seen-cong s t [] h = refl
first_seen-cong s t (m ∷ ms) h = ground (
  arith,
  h m.id,
  first_seen-cong s t ms h,
  first_seen-cong (m.id ∷ s) (m.id ∷ t) ms (λ k. ap (λ b. (k == m.id) || b) (h k)),
)

-- Two movements at the head of the list, in either order.
swap_cases :
    (s : List ℕ) (x y : SettlementMovement) (ms : List SettlementMovement)
    → (x.id ≡ y.id → x ≡ y)
    → (first_seen s (x ∷ y ∷ ms) ≡ first_seen s (y ∷ x ∷ ms))
      ⊎ ((first_seen s (x ∷ y ∷ ms) ≡ x ∷ y ∷ first_seen (y.id ∷ x.id ∷ s) ms)
          × (first_seen s (y ∷ x ∷ ms) ≡ y ∷ x ∷ first_seen (y.id ∷ x.id ∷ s) ms))
unfolding first_seen
swap_cases s x y ms same = ground (
  arith,
  same,
  first_seen-cong (x.id ∷ y.id ∷ s) (y.id ∷ x.id ∷ s) ms
      (λ k. or_swap (k == x.id) (k == y.id) (contains k s)),
)
  where
    or_swap : (a b c : Bool) → a || (b || c) ≡ b || (a || c)
    or_swap a b c = ground arith

head_cases :
    (s : List ℕ) (x : SettlementMovement) (l m : List SettlementMovement)
    → ((first_seen s (x ∷ l) ≡ first_seen s l) × (first_seen s (x ∷ m) ≡ first_seen s m))
      ⊎ ((first_seen s (x ∷ l) ≡ x ∷ first_seen (x.id ∷ s) l)
          × (first_seen s (x ∷ m) ≡ x ∷ first_seen (x.id ∷ s) m))
unfolding first_seen
head_cases s x l m = ground arith

first_seen-perm :
    (s : List ℕ) {l m : List SettlementMovement}
    → Permᴰ l m
    → Identified l
    → Permᴰ (first_seen s l) (first_seen s m)
first_seen-perm s Permᴰ.nil d = Permᴰ.refl (first_seen s [])
first_seen-perm s (Permᴰ.cons {a = x} {b = y} {l₁ = l} {l₂ = m} e p) d =
    let d' = λ (a b : SettlementMovement) (i : In a l) (j : In b l). d a b (inr i) (inr j) in
    rw (← e) (elim (head_cases s x l m) [
      | inl (a, b) ↦ rw (a, b) (first_seen-perm s p d')
      | inr (a, b) ↦ rw (a, b) (Permᴰ.cons refl (first_seen-perm (x.id ∷ s) p d'))
    ])
first_seen-perm s (Permᴰ.swap {a = x} {b = y} {a' = y'} {b' = x'} {l = l} e f) d =
    rw (← e, ← f)
      (elim (swap_cases s x y l (d x y (inl refl) (inr (inl refl)))) [
        | inl a ↦ rw a (Permᴰ.refl (first_seen s (y ∷ x ∷ l)))
        | inr (a, b) ↦ rw (a, b) (Permᴰ.swap refl refl)
      ])
first_seen-perm s (Permᴰ.trans p q) d =
    Permᴰ.trans (first_seen-perm s p d)
      (first_seen-perm s q (λ a b m n. d a b (perm-In a p m) (perm-In b p n)))

other_period-perm :
    (d : Date) {l m : List SettlementMovement}
    → Permᴰ l m
    → in_other_period d l ≡ in_other_period d m
other_period-perm d Permᴰ.nil = refl
other_period-perm d (Permᴰ.cons {a = x} {b = y} {l₁ = l} {l₂ = m} e p) = tails l m (length-perm p)
  where
    tails :
        (l m : List SettlementMovement)
        → length l ≡ length m
        → in_other_period d (x ∷ l) ≡ in_other_period d (y ∷ m)
    tails [] [] h = ap (λ z. in_other_period d (z ∷ [])) e
    tails [] (b ∷ m) h = absurd (omega arith)
    tails (a ∷ l) [] h = absurd (omega arith)
    tails (a ∷ l) (b ∷ m) h = refl
other_period-perm d (Permᴰ.swap e f) = refl
other_period-perm d (Permᴰ.trans p q) = other_period-perm d p ∙ other_period-perm d q

sum-perm : {l m : List ℤ} → Permᴰ l m → sum l ≡ sum m
unfolding sum
sum-perm Permᴰ.nil = refl
sum-perm (Permᴰ.cons e p) = cc (sum-perm p)
sum-perm (Permᴰ.swap {a = x} {b = y} {l = l} e f) = rw (← e, ← f) (omega int_laws)
sum-perm (Permᴰ.trans p q) = sum-perm p ∙ sum-perm q

-- The greatest inflow passes the test exactly when some inflow does.
maximum-any : (t : ℤ) (x : ℤ) (xs : List ℤ) → ltb_ℤ t (maximum x xs) ≡ any (ltb_ℤ t) (x ∷ xs)
unfolding maximum
maximum-any t x [] = ground arith
maximum-any t x (y ∷ ys) = ground (arith, maximum-any t y ys)

covers-any : (xs ds : List ℤ) → covers xs ds ≡ any (ltb_ℤ (sum ds)) xs && not (length ds == 0)
unfolding covers
covers-any [] ds = refl
covers-any (x ∷ xs) [] = ground arith
covers-any (x ∷ xs) (d ∷ ds) = rw (maximum-any (sum (d ∷ ds)) x xs) (ground arith)

covers-perm : {xs ys ds es : List ℤ} → Permᴰ xs ys → Permᴰ ds es → covers xs ds ≡ covers ys es
covers-perm {xs} {ys} {ds} {es} p q =
    rw (covers-any xs ds, covers-any ys es, sum-perm q, any-perm (ltb_ℤ (sum es)) p, length-perm q)

-- Every rule reads the related movements up to their order.
fires-perm :
    (s : SettlementMovement) {l m : List SettlementMovement} (r : ClassificationRule)
    → Permᴰ l m
    → fires (record { subject = s; related = l }) r ≡ fires (record { subject = s; related = m }) r
unfolding fires reversal_of_booked_chargeback_rule refund_of_booked_capture_rule
    fees_deducted_from_a_capture_rule booked_offsets_of_type any_booked_offset unreconciled_group
    inflows deductions
fires-perm s {l} {m} reversal_of_booked_chargeback p =
    let offset = λ (n : SettlementMovement).
      n.matched && (is_kind n.movement chargeback && eq_ℤ n.amount (negate s.amount)) in
    ground (arith, length-perm (keep-perm offset p))
fires-perm s {l} {m} refund_of_booked_capture_across_periods p =
    let offset = λ (n : SettlementMovement).
      n.matched && (is_kind n.movement capture && eq_ℤ n.amount (negate s.amount)) in
    rw (other_period-perm s.value_date (keep-perm offset p)) refl
fires-perm s {l} {m} fees_deducted_from_a_capture p =
    let group = Permᴰ.cons {a = s} refl (keep-perm (λ n. not n.matched) p) in
    rw
      (
        any-perm (is_booked_offset s) p,
        any-perm (λ n. is_kind n.movement capture) group,
        any-perm (λ n. is_kind n.movement fee) group,
        covers-perm
            (map-perm (λ n. n.amount)
              (keep-perm (λ n. is_kind n.movement capture && ltb_ℤ (pos 0) n.amount) group))
            (map-perm (λ n. negate n.amount)
              (keep-perm (λ n. is_kind n.movement fee && ltb_ℤ n.amount (pos 0)) group)),
      )
      refl
fires-perm s no_rule_matched p = refl

related-perm :
    (s : SettlementMovement) (o : Option Text) {l m : List SettlementMovement}
    → Permᴰ l m
    → Permᴰ (related_by l s o) (related_by m s o)
related-perm s none p = Permᴰ.refl []
related-perm s (some reference) p =
    keep-perm (λ m. same_key reference s.currency m m.merchant_reference && not (m.id == s.id)) p

decide-perm :
    (s : SettlementMovement) {c d : List SettlementMovement}
    → Permᴰ c d
    → Identified c
    → decide (relate c s) ≡ decide (relate d s)
unfolding relate decide winner
decide-perm s p i =
    let q = related-perm s s.merchant_reference (first_seen-perm [] p i) in
    rw
      (
        fires-perm s reversal_of_booked_chargeback q,
        fires-perm s refund_of_booked_capture_across_periods q,
        fires-perm s fees_deducted_from_a_capture q,
      )
      refl

-- Where an identifier belongs to one movement, the classifications of the residuals do not depend
-- on the order of the context, nor on that of the residuals but for their own order.
pub classify-perm :
    {subjects subjects' context context' : List SettlementMovement}
    → Permᴰ subjects subjects'
    → Permᴰ context context'
    → Identified (context ++ subjects)
    → Permᴰ (classify subjects context) (classify subjects' context')
unfolding classify
classify-perm {subjects} {subjects'} {context} {context'} p q i =
    rw
      (fun_ext (λ s.
        decide-perm s (Permᴰ.trans (Permᴰ.append_right subjects q) (Permᴰ.append_left context' p))
          i))
      (map-perm (λ s. decide (relate (context' ++ subjects') s)) p)

alone :
    (s : SettlementMovement) (e : Evidence)
    → e ≡ record { subject = s; related = [] }
    → winner e ≡ no_rule_matched
unfolding winner fires reversal_of_booked_chargeback_rule refund_of_booked_capture_rule
    fees_deducted_from_a_capture_rule booked_offsets_of_type unreconciled_group
alone s e h = rw h (ground arith)

-- A residual for which the file stated no merchant reference is left unclassified.
pub classify-no_reference :
    (context : List SettlementMovement) (s : SettlementMovement)
    → s.merchant_reference ≡ none
    → winner (relate context s) ≡ no_rule_matched
unfolding relate
classify-no_reference context s h = alone s (relate context s) (rw h refl)
