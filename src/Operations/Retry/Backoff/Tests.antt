-- ===== src/Operations/Retry/Backoff/Tests.antt =====
-- The backoff of a doubling policy, over a line of numbers that has an infinity and what is no number.
use ledger_exception_control.Common.{
  ℕ, zero, suc, none, some, Option, Bool, true, false, ◌*◌, ◌^◌, ◌≡◌, refl, arith, ap,
}
use ledger_exception_control.Common.Int.{ℤ, pos, negsuc, ◌≤ℤ◌, ltb_ℤ, leb_ℤ, pos_part}
use ledger_exception_control.Operations.Retry.Backoff.{
  Floats, BackoffPolicy, IsFaithful, backoff_ceiling, backoff_delay, backoff_delay-within,
  check_backoff, exact_limit,
}
use native.Mathlib.Nat.{one-le-pow, le-mul_of_pos_right}

-- Whole microseconds, and the two values of a float beside the numbers.
data Extended : Type 0 where
  number : ℤ → Extended
  unbounded no_number : Extended

-- Infinity times zero is no number.
abbrev product : Extended → Extended → Extended
product (number a) (number b) = number (pos (pos_part a * pos_part b))
product (number (pos zero)) unbounded = no_number
product (number (pos (suc a))) unbounded = unbounded
product (number (negsuc a)) unbounded = no_number
product unbounded unbounded = unbounded
product unbounded (number (pos zero)) = no_number
product unbounded (number (pos (suc b))) = unbounded
product unbounded (number (negsuc b)) = no_number
product unbounded no_number = no_number
product no_number b = no_number
product (number a) no_number = no_number

abbrev raised : Extended → ℕ → Option Extended
raised (number a) n = some (number (pos (pos_part a ^ n)))
raised a zero = some (number (pos 1))
raised a (suc n) = some a

abbrev is_less : Extended → Extended → Bool
is_less (number a) (number b) = ltb_ℤ a b
is_less (number a) unbounded = true
is_less a b = false

abbrev is_at_most : Extended → Extended → Bool
is_at_most (number a) (number b) = leb_ℤ a b
is_at_most (number a) unbounded = true
is_at_most unbounded unbounded = true
is_at_most a b = false

abbrev duration : Extended → ℤ
duration (number a) = a
duration a = pos 0

-- The draw is the highest.
abbrev extended : Floats Extended
extended = record {
  total_seconds = number;
  times = product;
  power = raised;
  less = is_less;
  leq = is_at_most;
  timedelta = duration;
  zero_float = number (pos 0);
  one_float = number (pos 1);
  uniform = λ x y. y;
}

duration-monotone :
    (x y : Extended)
    → is_at_most (number (pos 0)) x ≡ true
    → is_at_most x y ≡ true
    → is_at_most y (number exact_limit) ≡ true
    → duration x ≤ℤ duration y
duration-monotone (number x) (number y) h g k = ground (arith, g)
duration-monotone (number x) unbounded h g k = absurd (cc (k))
duration-monotone (number x) no_number h g k = absurd (cc (k))
duration-monotone unbounded (number y) h g k = absurd (cc (g))
duration-monotone unbounded unbounded h g k = absurd (cc (k))
duration-monotone unbounded no_number h g k = absurd (cc (k))
duration-monotone no_number y h g k = absurd (cc (h))

at_most_of_less : (x y : Extended) → is_less x y ≡ true → is_at_most x y ≡ true
at_most_of_less (number x) (number y) h = ground (arith, h)
at_most_of_less (number x) unbounded h = refl
at_most_of_less (number x) no_number h = absurd (cc (h))
at_most_of_less unbounded y h = absurd (cc (h))
at_most_of_less no_number y h = absurd (cc (h))

at_most_of_not_less :
    (x y : Extended)
    → is_at_most x x ≡ true
    → is_at_most y y ≡ true
    → is_less y x ≡ false
    → is_at_most x y ≡ true
at_most_of_not_less (number x) (number y) h g k = ground (arith, k)
at_most_of_not_less (number x) unbounded h g k = refl
at_most_of_not_less (number x) no_number h g k = absurd (cc (g))
at_most_of_not_less unbounded (number y) h g k = absurd (cc (k))
at_most_of_not_less unbounded unbounded h g k = refl
at_most_of_not_less unbounded no_number h g k = absurd (cc (g))
at_most_of_not_less no_number y h g k = absurd (cc (h))

at_most_trans :
    (x y z : Extended) → is_at_most x y ≡ true → is_at_most y z ≡ true → is_at_most x z ≡ true
at_most_trans (number x) (number y) (number z) h g = ground (arith, h, g)
at_most_trans (number x) y unbounded h g = refl
at_most_trans (number x) (number y) no_number h g = absurd (cc (g))
at_most_trans (number x) unbounded (number z) h g = absurd (cc (g))
at_most_trans (number x) unbounded no_number h g = absurd (cc (g))
at_most_trans (number x) no_number z h g = absurd (cc (h))
at_most_trans unbounded (number y) z h g = absurd (cc (h))
at_most_trans unbounded unbounded z h g = g
at_most_trans unbounded no_number z h g = absurd (cc (h))
at_most_trans no_number y z h g = absurd (cc (h))

at_most_right : (x y : Extended) → is_at_most x y ≡ true → is_at_most y y ≡ true
at_most_right (number x) (number y) h = ground arith
at_most_right x unbounded h = refl
at_most_right (number x) no_number h = absurd (cc (h))
at_most_right unbounded (number y) h = ground arith
at_most_right unbounded no_number h = absurd (cc (h))
at_most_right no_number (number y) h = ground arith
at_most_right no_number no_number h = absurd (cc (h))

-- A power of a number that is at least one is one.
power-positive :
    (m x : ℤ) (n : ℕ)
    → some (number (pos (pos_part m ^ n))) ≡ some (number x)
    → leb_ℤ (pos 1) m ≡ true
    → leb_ℤ (pos 1) x ≡ true
power-positive (negsuc k) x n e h = ground (arith, h)
power-positive (pos m) x n e h =
    let p = one-le-pow n m (ground (arith, h)) in
    let r : pos (m ^ n) ≡ x = ap (λ o. duration (value o)) e in rw (← r) (ground (arith, p))
  where
    value : Option Extended → Extended
    value none = no_number
    value (some v) = v

product-grows :
    (x y : ℤ)
    → leb_ℤ (pos 1) x ≡ true
    → ltb_ℤ (pos 0) y ≡ true
    → leb_ℤ y (pos (pos_part y * pos_part x)) ≡ true
product-grows (negsuc k) y h g = ground (arith, h)
product-grows (pos x) (negsuc j) h g = ground (arith, g)
product-grows (pos x) (pos y) h g =
    let q = le-mul_of_pos_right {m = x} y (ground (arith, h)) in ground (arith, q)

unbounded-grows :
    (x : ℤ) → leb_ℤ (pos 1) x ≡ true → is_at_most unbounded (product unbounded (number x)) ≡ true
unbounded-grows (pos zero) h = absurd (cc (h))
unbounded-grows (pos (suc x)) h = refl
unbounded-grows (negsuc x) h = ground (arith, h)

grows-unbounded :
    (y : ℤ) → ltb_ℤ (pos 0) y ≡ true → is_at_most (number y) (product (number y) unbounded) ≡ true
grows-unbounded (pos zero) h = absurd (cc (h))
grows-unbounded (pos (suc y)) h = refl
grows-unbounded (negsuc y) h = ground (arith, h)

times-grows :
    (m x y : Extended) (n : ℕ)
    → raised m n ≡ some x
    → is_at_most (number (pos 1)) m ≡ true
    → is_less (number (pos 0)) y ≡ true
    → is_at_most y (product y x) ≡ true
times-grows m x no_number n e h g = absurd (cc (g))
times-grows no_number x y n e h g = absurd (cc (h))
times-grows (number m) (number x) (number y) n e h g =
    product-grows x y (power-positive m x n e h) g
times-grows (number m) (number x) unbounded n e h g = unbounded-grows x (power-positive m x n e h)
times-grows (number m) unbounded y n e h g = absurd (cc (e))
times-grows (number m) no_number y n e h g = absurd (cc (e))
times-grows unbounded (number x) (number y) zero e h g =
    product-grows x y (power-positive (pos 1) x 0 e refl) g
times-grows unbounded (number x) unbounded zero e h g =
    unbounded-grows x (power-positive (pos 1) x 0 e refl)
times-grows unbounded unbounded y zero e h g = absurd (cc (e))
times-grows unbounded no_number y zero e h g = absurd (cc (e))
times-grows unbounded (number x) y (suc n) e h g = absurd (cc (e))
times-grows unbounded unbounded (number y) (suc n) e h g = grows-unbounded y g
times-grows unbounded unbounded unbounded (suc n) e h g = refl
times-grows unbounded no_number y (suc n) e h g = absurd (cc (e))

extended-faithful : IsFaithful extended
extended-faithful = record {
  timedelta-seconds = λ d h g. refl;
  zero_seconds = refl;
  timedelta-monotone = duration-monotone;
  seconds-monotone = λ d e h. ground (arith, h);
  leq_of_less = at_most_of_less;
  leq_of_not_less = at_most_of_not_less;
  leq_trans = at_most_trans;
  leq_right = at_most_right;
  times-grows = times-grows;
  seconds-positive = λ d h. ground (arith, h);
  uniform-within = λ y h g. (h, at_most_right (number (pos 0)) y h);
}

abbrev doubling : BackoffPolicy extended
doubling = record {
  base_delay = pos 1000000;
  multiplier = number (pos 2);
  cap = pos 60000000;
  max_attempts = pos 5;
  time_budget = pos 900000000;
}

doubling-checked : check_backoff extended doubling ≡ none
unfolding check_backoff
doubling-checked = refl

backoff_delay-within_example :
    (ceiling : ℤ) × (delay : ℤ) × (backoff_ceiling extended doubling 4 ≡ some ceiling)
    × (backoff_delay extended doubling 4 ≡ some delay)
    × (doubling.base_delay ≤ℤ ceiling)
    × (ceiling ≤ℤ doubling.cap)
    × (pos 0 ≤ℤ delay)
    × (delay ≤ℤ ceiling)
backoff_delay-within_example =
    backoff_delay-within extended extended-faithful doubling 3 (number (pos 8)) doubling-checked
      refl (omega arith) refl

-- Where the multiplier is infinite, the second ceiling is the cap.
abbrev unlimited : BackoffPolicy extended
unlimited = record doubling { multiplier = unbounded }

unlimited-capped : backoff_ceiling extended unlimited 2 ≡ some (pos 60000000)
unfolding backoff_ceiling
unlimited-capped = refl
