-- ===== src/Classification/Rules.antt =====
-- What each rule of the classifier establishes, and that the rules exclude one another.
use ledger_exception_control.Common.{
  List, Option, length, ◌≡◌, In, some, true, ◌∷◌, In-keep, arith, [], ==_refl, Bool, ◌&&◌, inl,
  none, singleton-In, keep-In, refl, ◌≢◌, ◌⊎◌, false, any-In, inr,
}
use ledger_exception_control.Classification.Engine.{
  Evidence, fires, booked_offsets_of_type, reversal_of_booked_chargeback_rule, SettlementMovement,
  inflows, unreconciled_group, refund_of_booked_capture_rule, winner, covers, any_booked_offset,
  fees_deducted_from_a_capture_rule, maximum, deductions, in_other_period, sum, is_booked_offset,
}
use ledger_exception_control.Classification.Taxonomy.{
  MovementType, ClassificationRule, reversal_of_booked_chargeback, is_kind, chargeback,
  chargeback_reversal, movement_code, refund, capture, accounting_period, fee,
  refund_of_booked_capture_across_periods, fees_deducted_from_a_capture, no_rule_matched,
}
use ledger_exception_control.Common.Int.{negate, pos, ◌<ℤ◌, eq_ℤ, eq_ℤ_iff, ℤ}
use ledger_exception_control.Common.Date.{Date}
use ledger_exception_control.Common.Text.{text_eq_refl}

-- A movement of the related ones that the ledger carries and that the subject exactly reverses.
pub record Offset (e : Evidence) (m : SettlementMovement) : Type 0 where
  pub related_in : In m e.related
  pub booked : m.matched ≡ true
  pub reverses : m.amount ≡ negate e.subject.amount

-- Exactly one of the related movements is a booked offset of the declared kind.
pub record OneOffset (e : Evidence) (kind : MovementType) (m : SettlementMovement) : Type 0 where
  pub offset : Offset e m
  pub declared : m.movement ≡ some kind
  pub only : (n : SettlementMovement) → Offset e n → n.movement ≡ some kind → n ≡ m

is_kind→eq : (o : Option MovementType) (k : MovementType) → is_kind o k ≡ true → o ≡ some k
is_kind→eq none k h = absurd (cc)
is_kind→eq (some m) k h = ground arith

eq→is_kind : (o : Option MovementType) (k : MovementType) → o ≡ some k → is_kind o k ≡ true
eq→is_kind o k h = rw h (==_refl (movement_code k))

In-offsets :
    (e : Evidence) (kind : MovementType) (m : SettlementMovement)
    → In m (booked_offsets_of_type e kind)
    → Offset e m × (m.movement ≡ some kind)
unfolding booked_offsets_of_type
In-offsets e kind m h =
    let (i, t) =
      keep-In
        (λ n. n.matched && (is_kind n.movement kind && eq_ℤ n.amount (negate e.subject.amount))) m
        e.related h in
    let (b, k, a) =
      split m.matched (is_kind m.movement kind) (eq_ℤ m.amount (negate e.subject.amount)) t in
    (
      record {
        related_in = i;
        booked = b;
        reverses = (eq_ℤ_iff m.amount (negate e.subject.amount)).0 a;
      },
      is_kind→eq m.movement kind k,
    )
  where
    split : (x y z : Bool) → x && (y && z) ≡ true → (x ≡ true) × (y ≡ true) × (z ≡ true)
    split x y z h = ground arith

offsets-In :
    (e : Evidence) (kind : MovementType) (m : SettlementMovement)
    → Offset e m
    → m.movement ≡ some kind
    → In m (booked_offsets_of_type e kind)
unfolding booked_offsets_of_type
offsets-In e kind m o k =
    In-keep (λ n. n.matched && (is_kind n.movement kind && eq_ℤ n.amount (negate e.subject.amount)))
      m e.related o.related_in
      (ground (
        arith,
        o.booked,
        eq→is_kind m.movement kind k,
        (eq_ℤ_iff m.amount (negate e.subject.amount)).1 o.reverses,
      ))

one_offset :
    (e : Evidence) (kind : MovementType) (m : SettlementMovement)
    → booked_offsets_of_type e kind ≡ m ∷ []
    → OneOffset e kind m
one_offset e kind m h =
    let (o, k) = In-offsets e kind m (rw h (inl refl)) in
    record {
      offset = o;
      declared = k;
      only = λ n p d. singleton-In n m (m ∷ []) refl (rw h at (offsets-In e kind n p d)) (inl refl);
    }

single : {A : Type 0} (xs : List A) → length xs ≡ 1 → (x : A) × (xs ≡ x ∷ [])
single [] h = absurd (omega arith)
single (x ∷ []) h = (x, refl)
single (x ∷ y ∷ xs) h = absurd (omega arith)

-- What a fired rule says of the evidence.
abbrev pub Explains : Evidence → ClassificationRule → Type 0
Explains e reversal_of_booked_chargeback =
    (e.subject.movement ≡ some chargeback_reversal)
    × (pos 0 <ℤ e.subject.amount)
    × ((m : SettlementMovement) × OneOffset e chargeback m)
Explains e refund_of_booked_capture_across_periods =
    (e.subject.movement ≡ some refund)
    × (e.subject.amount <ℤ pos 0)
    × ((m : SettlementMovement) × OneOffset e capture m
        × (accounting_period m.value_date ≢ accounting_period e.subject.value_date))
Explains e fees_deducted_from_a_capture =
    ((e.subject.movement ≡ some capture) ⊎ (e.subject.movement ≡ some fee))
    × ((m : SettlementMovement) → Offset e m → ⊥)
    × (inflows (unreconciled_group e) ≢ [])
    × (deductions (unreconciled_group e) ≢ [])
    × ((x : ℤ) × In x (inflows (unreconciled_group e))
        × (sum (deductions (unreconciled_group e)) <ℤ x))
Explains e no_rule_matched =
    (fires e reversal_of_booked_chargeback ≡ false)
    × (fires e refund_of_booked_capture_across_periods ≡ false)
    × (fires e fees_deducted_from_a_capture ≡ false)

reversal-Explains :
    (e : Evidence)
    → reversal_of_booked_chargeback_rule e ≡ true
    → Explains e reversal_of_booked_chargeback
unfolding reversal_of_booked_chargeback_rule
reversal-Explains e h =
    let (m, q) = single (booked_offsets_of_type e chargeback) (ground arith) in
    (
      is_kind→eq e.subject.movement chargeback_reversal (ground arith),
      ground arith,
      (m, one_offset e chargeback m q),
    )

other_period :
    (d : Date) (ms : List SettlementMovement)
    → in_other_period d ms ≡ true
    → (m : SettlementMovement) × (ms ≡ m ∷ [])
      × (accounting_period m.value_date ≢ accounting_period d)
other_period d [] h = absurd (cc)
other_period d (m ∷ n ∷ more) h = absurd (cc)
other_period d (m ∷ []) h = (m, refl, λ e. cc (h, text_eq_refl (accounting_period d)))

refund-Explains :
    (e : Evidence)
    → refund_of_booked_capture_rule e ≡ true
    → Explains e refund_of_booked_capture_across_periods
unfolding refund_of_booked_capture_rule
refund-Explains e h =
    let (m, q, p) =
      other_period e.subject.value_date (booked_offsets_of_type e capture) (ground arith) in
    (
      is_kind→eq e.subject.movement refund (ground arith),
      ground arith,
      (m, one_offset e capture m q, p),
    )

maximum-In : (x : ℤ) (xs : List ℤ) → In (maximum x xs) (x ∷ xs)
unfolding maximum
maximum-In x [] = inl refl
maximum-In x (y ∷ ys) = ground (arith, maximum-In y ys)

covers-true :
    (xs ds : List ℤ)
    → covers xs ds ≡ true
    → (xs ≢ []) × (ds ≢ []) × ((x : ℤ) × In x xs × (sum ds <ℤ x))
unfolding covers
covers-true [] ds h = absurd (cc)
covers-true (x ∷ xs) [] h = absurd (cc)
covers-true (x ∷ xs) (d ∷ ds) h = (λ e. cc, λ e. cc, (maximum x xs, maximum-In x xs, ground arith))

no-Offset : (e : Evidence) → any_booked_offset e ≡ false → (m : SettlementMovement) → Offset e m → ⊥
unfolding any_booked_offset
no-Offset e h m o = cc (
  h,
  any-In (is_booked_offset e.subject) m e.related o.related_in
      (ground (arith, o.booked, (eq_ℤ_iff m.amount (negate e.subject.amount)).1 o.reverses)),
)

fees-Explains :
    (e : Evidence)
    → fees_deducted_from_a_capture_rule e ≡ true
    → Explains e fees_deducted_from_a_capture
unfolding fees_deducted_from_a_capture_rule
fees-Explains e h =
    let (a, b, c) =
      covers-true (inflows (unreconciled_group e)) (deductions (unreconciled_group e))
        (ground arith) in
    (declared (is_kind e.subject.movement capture) refl, no-Offset e (ground arith), a, b, c)
  where
    declared :
        (b : Bool)
        → is_kind e.subject.movement capture ≡ b
        → (e.subject.movement ≡ some capture) ⊎ (e.subject.movement ≡ some fee)
    declared true k = inl (is_kind→eq e.subject.movement capture k)
    declared false k = inr (is_kind→eq e.subject.movement fee (ground arith))

winner-fires : (e : Evidence) → (winner e ≡ no_rule_matched) ⊎ (fires e (winner e) ≡ true)
unfolding winner
winner-fires e = ground arith

none-fires : (e : Evidence) → winner e ≡ no_rule_matched → Explains e no_rule_matched
unfolding winner
none-fires e h = ground arith

explained : (e : Evidence) (r : ClassificationRule) → fires e r ≡ true → Explains e r
unfolding fires
explained e reversal_of_booked_chargeback h = reversal-Explains e h
explained e refund_of_booked_capture_across_periods h = refund-Explains e h
explained e fees_deducted_from_a_capture h = fees-Explains e h
explained e no_rule_matched h = absurd (cc)

-- The rule that a residual is classified under holds of its evidence: the declared kind, the sign
-- and the only booked offset for the two reversals, a capture that covers its fees with no booked
-- offset at all for the fee split; and where no rule is named, none of the three fires.
pub winner-Explains : (e : Evidence) → Explains e (winner e)
winner-Explains e = elim (winner-fires e) [
  | inl n ↦ rw n (none-fires e n)
  | inr f ↦ explained e (winner e) f
]

-- What the subject must be declared as for a rule to fire.
abbrev Declared : Evidence → ClassificationRule → Type 0
Declared e reversal_of_booked_chargeback = e.subject.movement ≡ some chargeback_reversal
Declared e refund_of_booked_capture_across_periods = e.subject.movement ≡ some refund
Declared e fees_deducted_from_a_capture =
    (e.subject.movement ≡ some capture) ⊎ (e.subject.movement ≡ some fee)
Declared e no_rule_matched = ⊥

declared : (e : Evidence) (r : ClassificationRule) → fires e r ≡ true → Declared e r
unfolding fires
declared e reversal_of_booked_chargeback h = (reversal-Explains e h).0
declared e refund_of_booked_capture_across_periods h = (refund-Explains e h).0
declared e fees_deducted_from_a_capture h = (fees-Explains e h).0
declared e no_rule_matched h = absurd (cc)

one_rule : (e : Evidence) (r s : ClassificationRule) → Declared e r → Declared e s → r ≡ s
one_rule e reversal_of_booked_chargeback s h k = ground arith
one_rule e refund_of_booked_capture_across_periods s h k = ground arith
one_rule e fees_deducted_from_a_capture s h k = ground arith
one_rule e no_rule_matched s h k = absurd h

-- No evidence satisfies two rules, so a rule that fires is the one that the residual is classified
-- under, whatever the precedence.
pub fires-winner : (e : Evidence) (r : ClassificationRule) → fires e r ≡ true → winner e ≡ r
fires-winner e r h = elim (winner-fires e) [
  | inl n ↦ absurd (refuted e r h (none-fires e n))
  | inr f ↦ one_rule e (winner e) r (declared e (winner e) f) (declared e r h)
]
  where
    refuted :
        (e : Evidence) (r : ClassificationRule) → fires e r ≡ true → Explains e no_rule_matched → ⊥
    refuted e reversal_of_booked_chargeback h n = cc
    refuted e refund_of_booked_capture_across_periods h n = cc
    refuted e fees_deducted_from_a_capture h n = cc
    refuted e no_rule_matched h n = absurd (declared e no_rule_matched h)
