-- ===== src/Operations/Retry/Backoff.antt =====
-- operations/retry.py: the backoff curve. What it computes in floating point, and the draw from the
-- random source, are parameters, with what the code relies on as hypotheses.
mod Tests
use ledger_exception_control.Common.{
  ℕ, none, some, Option, ◌≡◌, true, false, arith, Bool, if◌then◌else◌, suc, zero, Bool-cases, ap,
  inl, inr,
}
use ledger_exception_control.Common.Int.{ℤ, pos, ltb_ℤ, leb_ℤ, ◌≤ℤ◌, ◌<ℤ◌}

pub data PolicyFault : Type 0 where
  base_not_positive multiplier_below_one cap_below_base no_attempts budget_not_positive :
      PolicyFault

-- The arithmetic of floats: `total_seconds`, the product, the power with a whole exponent, which is
-- `none` where it overflows, `<`, `<=` and `timedelta(seconds=...)`; and `rng.uniform`, of the draw
-- that is made.
pub record Floats (F : Type 0) : Type 0 where
  pub total_seconds : ℤ → F
  pub times : F → F → F
  pub power : F → ℕ → Option F
  pub less : F → F → Bool
  pub leq : F → F → Bool
  pub timedelta : F → ℤ
  pub zero_float : F
  pub one_float : F
  pub uniform : F → F → F

-- 270 years, in microseconds: up to there `total_seconds` is documented to be accurate.
abbrev pub exact_limit : ℤ
exact_limit = pos 8514720000000000

module _ {F : Type 0} (f : Floats F) where
  pub record BackoffPolicy : Type 0 where
    pub base_delay : ℤ
    pub multiplier : F
    pub cap : ℤ
    pub max_attempts : ℤ
    pub time_budget : ℤ

  -- `RetryPolicy.__post_init__`
  unfoldable pub check_backoff : BackoffPolicy → Option PolicyFault
  check_backoff p =
      if leb_ℤ p.base_delay (pos 0)
      then some base_not_positive
      else if f.less p.multiplier f.one_float
      then some multiplier_below_one
      else if ltb_ℤ p.cap p.base_delay
      then some cap_below_base
      else if ltb_ℤ p.max_attempts (pos 1)
      then some no_attempts
      else if leb_ℤ p.time_budget (pos 0)
      then some budget_not_positive
      else none

  -- `min(a, b)`
  abbrev pub lesser : F → F → F
  lesser a b = if f.less b a then b else a

  abbrev pub capped : BackoffPolicy → Option F → Option ℤ
  capped p none = none
  capped p (some growth) =
      some (
        f.timedelta
          (lesser (f.times (f.total_seconds p.base_delay) growth) (f.total_seconds p.cap)))

  -- `backoff_ceiling`, or `none` where it raises
  unfoldable pub backoff_ceiling : BackoffPolicy → ℕ → Option ℤ
  backoff_ceiling p zero = none
  backoff_ceiling p (suc n) = capped p (f.power p.multiplier n)

  abbrev pub draw_up_to : Option ℤ → Option ℤ
  draw_up_to none = none
  draw_up_to (some ceiling) = some (f.timedelta (f.uniform f.zero_float (f.total_seconds ceiling)))

  unfoldable pub backoff_delay : BackoffPolicy → ℕ → Option ℤ
  unfolding backoff_ceiling
  backoff_delay p n = draw_up_to (backoff_ceiling p n)

  infix 50 ◌⊑◌
  abbrev pub ◌⊑◌ : F → F → Type 0
  x ⊑ y = f.leq x y ≡ true

  -- What is documented of the floats, which may be no number, and of `uniform`: a duration is what its
  -- seconds say, both conversions respect the order, the seconds of a positive duration are positive,
  -- the product of a positive number with a power of what is at least one is no smaller (which is so of
  -- an infinite one too), and a draw from zero up to a number lies between its bounds.
  pub record IsFaithful : Type 0 where
    pub timedelta-seconds :
        (d : ℤ) → pos 0 ≤ℤ d → d ≤ℤ exact_limit → f.timedelta (f.total_seconds d) ≡ d
    pub zero_seconds : f.total_seconds (pos 0) ≡ f.zero_float
    pub timedelta-monotone :
        (x y : F)
        → f.zero_float ⊑ x
        → x ⊑ y
        → y ⊑ f.total_seconds exact_limit
        → f.timedelta x ≤ℤ f.timedelta y
    pub seconds-monotone : (d e : ℤ) → d ≤ℤ e → f.total_seconds d ⊑ f.total_seconds e
    pub leq_of_less : (x y : F) → f.less x y ≡ true → x ⊑ y
    pub leq_of_not_less : (x y : F) → x ⊑ x → y ⊑ y → f.less y x ≡ false → x ⊑ y
    pub leq_trans : (x y z : F) → x ⊑ y → y ⊑ z → x ⊑ z
    pub leq_right : (x y : F) → x ⊑ y → y ⊑ y
    pub times-grows :
        (m x y : F) (n : ℕ)
        → f.power m n ≡ some x
        → f.one_float ⊑ m
        → f.less f.zero_float y ≡ true
        → y ⊑ f.times y x
    pub seconds-positive : (d : ℤ) → pos 0 <ℤ d → f.less f.zero_float (f.total_seconds d) ≡ true
    pub uniform-within :
        (y : F)
        → f.zero_float ⊑ y
        → y ⊑ f.total_seconds exact_limit
        → (f.zero_float ⊑ f.uniform f.zero_float y) × (f.uniform f.zero_float y ⊑ y)

  module _ (l : IsFaithful) where
    lesser-right : (a b : F) → a ⊑ a → b ⊑ b → lesser a b ⊑ b
    lesser-right a b h g = elim (Bool-cases (f.less b a)) [
      | inl r ↦ rw r g
      | inr r ↦ rw r (l.leq_of_not_less a b h g r)
    ]

    lesser-above : (c a b : F) → c ⊑ a → c ⊑ b → c ⊑ lesser a b
    lesser-above c a b h g = elim (Bool-cases (f.less b a)) [ inl r ↦ rw r g | inr r ↦ rw r h ]

    within-timedelta :
        (x : F) (d e : ℤ)
        → pos 0 ≤ℤ d
        → d ≤ℤ e
        → e ≤ℤ exact_limit
        → f.total_seconds d ⊑ x
        → x ⊑ f.total_seconds e
        → (d ≤ℤ f.timedelta x) × (f.timedelta x ≤ℤ e)
    within-timedelta x d e p q r h g =
        let z = l.seconds-monotone (pos 0) d p in
        let nd : f.zero_float ⊑ f.total_seconds d = rw⁻¹ l.zero_seconds z in
        let top = l.seconds-monotone e exact_limit r in
        let low = l.timedelta-monotone (f.total_seconds d) x nd h (l.leq_trans _ _ _ g top) in
        let high = l.timedelta-monotone x (f.total_seconds e) (l.leq_trans _ _ _ nd h) g top in
        let ed = l.timedelta-seconds d p (omega (arith, q, r)) in
        let ee = l.timedelta-seconds e (omega (arith, p, q)) r in (rw⁻¹ ed low, rw⁻¹ ee high)

    checked-base :
        (p : BackoffPolicy)
        → check_backoff p ≡ none
        → (pos 0 <ℤ p.base_delay) × (p.base_delay ≤ℤ p.cap)
    unfolding check_backoff
    checked-base p h = ground (arith, h)

    -- Under a policy that `RetryPolicy` accepts, with a multiplier that is a number and a cap of no more
    -- than 270 years, and where the power does not overflow, the ceiling after each attempt lies between
    -- the base delay and the cap, and the delay that is drawn between zero and the ceiling.
    pub backoff_delay-within :
        (p : BackoffPolicy) (n : ℕ) (growth : F)
        → check_backoff p ≡ none
        → f.one_float ⊑ p.multiplier
        → p.cap ≤ℤ exact_limit
        → f.power p.multiplier n ≡ some growth
        → (ceiling : ℤ) × (delay : ℤ) × (backoff_ceiling p (suc n) ≡ some ceiling)
          × (backoff_delay p (suc n) ≡ some delay)
          × (p.base_delay ≤ℤ ceiling)
          × (ceiling ≤ℤ p.cap)
          × (pos 0 ≤ℤ delay)
          × (delay ≤ℤ ceiling)
    unfolding backoff_delay backoff_ceiling
    backoff_delay-within p n growth h m top e =
        let (positive, order) = checked-base p h in
        let base : pos 0 ≤ℤ p.base_delay = omega (arith, positive) in
        let b = f.total_seconds p.base_delay in
        let c = f.total_seconds p.cap in
        let grown = f.times b growth in
        let bg =
          l.times-grows p.multiplier growth b n e m (l.seconds-positive p.base_delay positive) in
        let bc = l.seconds-monotone p.base_delay p.cap order in
        let (low, high) =
          within-timedelta (lesser grown c) p.base_delay p.cap base order top
            (lesser-above b grown c bg bc)
            (lesser-right grown c (l.leq_right _ _ bg) (l.leq_right _ _ bc)) in
        let ceiling = f.timedelta (lesser grown c) in
        let room : pos 0 ≤ℤ ceiling = omega (arith, base, low) in
        let zc : f.zero_float ⊑ f.total_seconds ceiling =
          rw⁻¹ l.zero_seconds (l.seconds-monotone (pos 0) ceiling room) in
        let reach : ceiling ≤ℤ exact_limit = omega (arith, high, top) in
        let (above, below) =
          l.uniform-within (f.total_seconds ceiling) zc
            (l.seconds-monotone ceiling exact_limit reach) in
        let (least, most) =
          within-timedelta (f.uniform f.zero_float (f.total_seconds ceiling)) (pos 0) ceiling
            (omega arith) room (omega (arith, high, top)) (rw l.zero_seconds above) below in
        (
          ceiling,
          f.timedelta (f.uniform f.zero_float (f.total_seconds ceiling)),
          ap (capped p) e,
          ap (λ o. draw_up_to (capped p o)) e,
          low,
          high,
          least,
          most,
        )
