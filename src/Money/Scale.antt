-- ===== src/Money/Scale.antt =====
-- The test on the digits against the arithmetic that it stands for: four decimal places hold the
-- value exactly when it is a whole number of ten-thousandths.
use ledger_exception_control.Common.{
  ℕ, ◌*◌, List, ◌++◌, ◌<◌, ◌+◌, all, ◌≡◌, [], suc, ◌==◌, ◌^◌, true, length, arith, ◌↔◌, ◌∷◌, refl,
  zero, ◌∙◌, ◌-◌, ◌≤◌, sym, ap, Bool, take,
}
use ledger_exception_control.Money.Decimal.{
  coefficient_from, drop, last_digits, within_money_scale, coefficient, money_max_scale, finite,
  scale_test,
}
use native.Mathlib.Decide.{dec_lt}
use native.Mathlib.Nat.{pow-suc, one-le-pow, le_trans, pow-le-pow_right, add-zero}
use ledger_exception_control.Common.Int.{ℤ, pos, negsuc, negate, ◌-ℤ◌, int_laws}

-- The digits as `as_tuple` gives them.
abbrev pub AreDigits : List ℕ → Type 0
AreDigits [] = Unit
AreDigits (d ∷ ds) = (d < 10) × AreDigits ds

abbrev power : List ℕ → ℕ
power ds = 10 ^ length ds

coefficient_from-split :
    (acc : ℕ) (ds : List ℕ) → coefficient_from acc ds ≡ acc * power ds + coefficient_from 0 ds
unfolding coefficient_from
coefficient_from-split acc [] = omega arith
coefficient_from-split acc (d ∷ ds) = rw (pow-suc 10 (length ds)) (
    omega (arith, coefficient_from-split (10 * acc + d) ds, coefficient_from-split (10 * 0 + d) ds))

coefficient-cons :
    (d : ℕ) (ds : List ℕ) → coefficient_from 0 (d ∷ ds) ≡ d * power ds + coefficient_from 0 ds
unfolding coefficient_from
coefficient-cons d ds = omega (arith, coefficient_from-split (10 * 0 + d) ds)

below_ten : (d p c : ℕ) → d < 10 → c < p → d * p + c < p * 10
below_ten d p c h k = grind arith

coefficient-lt : (ds : List ℕ) → AreDigits ds → coefficient_from 0 ds < power ds
unfolding coefficient_from
coefficient-lt [] h = omega arith
coefficient-lt (d ∷ ds) h = rw (pow-suc 10 (length ds)) (
    omega (
      arith,
      coefficient_from-split (10 * 0 + d) ds,
      below_ten d (power ds) (coefficient_from 0 ds) h.0 (coefficient-lt ds h.1),
    ))

coefficient_from-append :
    (acc : ℕ) (xs ys : List ℕ)
    → coefficient_from acc (xs ++ ys) ≡ coefficient_from (coefficient_from acc xs) ys
unfolding coefficient_from
coefficient_from-append acc [] ys = refl
coefficient_from-append acc (x ∷ xs) ys = coefficient_from-append (10 * acc + x) xs ys

coefficient-append :
    (xs ys : List ℕ)
    → coefficient_from 0 (xs ++ ys) ≡ coefficient_from 0 xs * power ys + coefficient_from 0 ys
coefficient-append xs ys =
    coefficient_from-append 0 xs ys ∙ coefficient_from-split (coefficient_from 0 xs) ys

product_zero : (d p : ℕ) → 0 < p → d * p ≡ 0 → d ≡ 0
product_zero d p h e = grind arith

all_zero_iff : (ds : List ℕ) → (all (λ d. d == 0) ds ≡ true) ↔ (coefficient_from 0 ds ≡ 0)
all_zero_iff [] = unfold coefficient_from in (λ h. refl, λ h. refl)
all_zero_iff (d ∷ ds) = (
  λ h. ground (arith, coefficient-cons d ds, all_zero_iff ds),
  λ h. ground (
    arith,
    coefficient-cons d ds,
    product_zero d (power ds) (one-le-pow (length ds) 10 (omega arith)),
    all_zero_iff ds,
  ),
)

remainder_zero : (a n p c : ℕ) → a * p + c ≡ n * p → c < p → c ≡ 0
remainder_zero a n p c h l = elim (dec_lt a n) [ yes m ↦ absurd (grind arith) | no m ↦ grind arith ]

split_at : (n : ℕ) (ds : List ℕ) → take n ds ++ drop n ds ≡ ds
split_at zero ds = refl
split_at (suc n) [] = refl
split_at (suc n) (d ∷ ds) = rw (split_at n ds)

drop-AreDigits : (n : ℕ) (ds : List ℕ) → AreDigits ds → AreDigits (drop n ds)
drop-AreDigits zero ds h = h
drop-AreDigits (suc n) [] h = tt
drop-AreDigits (suc n) (d ∷ ds) h = drop-AreDigits n ds h.1

length-drop : (n : ℕ) (ds : List ℕ) → length (drop n ds) ≡ length ds - n
length-drop zero ds = omega arith
length-drop (suc n) [] = omega arith
length-drop (suc n) (d ∷ ds) = omega (arith, length-drop n ds)

-- The last digits are below the power that divides, so they vanish exactly where it divides.
last_digits-below :
    (x : ℕ) (ds : List ℕ) → AreDigits ds → coefficient_from 0 (last_digits x ds) < 10 ^ x
last_digits-below x ds h =
    let m = length ds - x in
    let small = coefficient-lt (drop m ds) (drop-AreDigits m ds h) in
    let fits : length (drop m ds) ≤ x = omega (arith, length-drop m ds) in
    le_trans small (pow-le-pow_right {n = 10} (omega arith) fits)

parts :
    (x : ℕ) (ds : List ℕ)
    → (a : ℕ) × (coefficient_from 0 ds ≡ a * 10 ^ x + coefficient_from 0 (last_digits x ds))
parts x ds = elim (dec_lt (length ds) x) [
  | yes short ↦
      let all_of_them : length ds - x ≡ 0 = omega arith in (0, rw all_of_them (omega arith))
  | no long ↦
      let m = length ds - x in
      let tail : length (drop m ds) ≡ x = omega (arith, length-drop m ds) in
      (
        coefficient_from 0 (take m ds),
        ap (coefficient_from 0) (sym (split_at m ds))
            ∙ coefficient-append (take m ds) (drop m ds)
            ∙ ap (λ k. coefficient_from 0 (take m ds) * 10 ^ k + coefficient_from 0 (drop m ds))
                tail,
      )
]

last_digits-divides :
    (x : ℕ) (ds : List ℕ)
    → AreDigits ds
    → (all (λ d. d == 0) (last_digits x ds) ≡ true)
      ↔ ((n : ℕ) × (coefficient_from 0 ds ≡ n * 10 ^ x))
last_digits-divides x ds h =
    let (a, e) = parts x ds in
    let rest = last_digits x ds in
    (
      λ z. (a, omega (arith, e, (all_zero_iff rest).0 z)),
      λ (n, g). (all_zero_iff rest).1 (
          remainder_zero a n (10 ^ x) (coefficient_from 0 rest) (sym e ∙ g)
            (last_digits-below x ds h)),
    )

-- The value times ten thousand is the whole number `n`.
abbrev pub Represents : List ℕ → ℤ → ℕ → Type 0
Represents ds (pos k) n = coefficient ds * 10 ^ k * 10 ^ money_max_scale ≡ n
Represents ds (negsuc k) n = coefficient ds * 10 ^ money_max_scale ≡ n * 10 ^ suc k

excess_eq : (j : ℕ) → negate (negsuc (suc (suc (suc (suc j))))) -ℤ pos money_max_scale ≡ pos (suc j)
excess_eq j = omega int_laws

scale_test_pos :
    (ds : List ℕ) (j : ℕ) → scale_test ds (pos (suc j)) ≡ all (λ d. d == 0) (last_digits (suc j) ds)
scale_test_pos ds j = rw add-zero (ground arith)

four_more : (j : ℕ) → 10 ^ suc (suc (suc (suc (suc j)))) ≡ 10 ^ suc j * 10000
four_more j = simp pow-suc (omega arith)

-- For a finite decimal of proper digits, the test holds exactly where the value is a whole number
-- of ten-thousandths.
pub within_money_scale_iff :
    (sign : Bool) (ds : List ℕ) (exponent : ℤ)
    → AreDigits ds
    → (within_money_scale (finite sign ds exponent) ≡ true) ↔ ((n : ℕ) × Represents ds exponent n)
unfolding within_money_scale coefficient
within_money_scale_iff sign ds (pos k) h =
    (λ t. (coefficient_from 0 ds * 10 ^ k * 10 ^ 4, refl), λ r. ground arith)
within_money_scale_iff sign ds (negsuc zero) h =
    (λ t. (coefficient_from 0 ds * 1000, omega arith), λ r. refl)
within_money_scale_iff sign ds (negsuc (suc zero)) h =
    (λ t. (coefficient_from 0 ds * 100, omega arith), λ r. refl)
within_money_scale_iff sign ds (negsuc (suc (suc zero))) h =
    (λ t. (coefficient_from 0 ds * 10, omega arith), λ r. refl)
within_money_scale_iff sign ds (negsuc (suc (suc (suc zero)))) h =
    (λ t. (coefficient_from 0 ds, omega arith), λ r. refl)
within_money_scale_iff sign ds (negsuc (suc (suc (suc (suc j))))) h =
    let (to, back) = last_digits-divides (suc j) ds h in
    rw (excess_eq j, scale_test_pos ds j, four_more j)
      (λ t. let (n, g) = to t in (n, omega (arith, g)), λ (n, g). back (n, omega (arith, g)))
