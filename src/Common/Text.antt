-- ===== src/Common/Text.antt =====
-- A Python `str` as the list of its code points, with equality and the lexicographic order by
-- which Python compares texts.
use Prim.Native.Nat.{ℕ, zero, suc, ◌+◌, ◌/◌, ◌%◌, compare, Ordering}
use Prim.Native.Char.{code}
use Prim.Native.String.{String}
use mathlib.Core.Path.{◌≡◌, refl}
use mathlib.Core.Bool.{Bool, true, false, ◌&&◌, ◌||◌}
use mathlib.Core.List.{List, [], ◌∷◌, ◌++◌}
use native.Mathlib.Omega.{arith}
use ledger_exception_control.Common.Tests.{◌==◌, leb, ltb, if◌then◌else◌}
use ledger_exception_control.Common.Lists.{all}

abbrev pub Text : Type 0
Text = List ℕ

abbrev pub codes : String → Text
codes String.[] = []
codes (String.◌∷◌ c s) = code c ∷ codes s

abbrev pub text_eq : Text → Text → Bool
text_eq [] [] = true
text_eq [] (y ∷ ys) = false
text_eq (x ∷ xs) [] = false
text_eq (x ∷ xs) (y ∷ ys) = x == y && text_eq xs ys

-- Which of three ways two texts compare.
abbrev pub then_compare : Ordering → Ordering → Ordering
then_compare Ordering.lt o = Ordering.lt
then_compare Ordering.eq o = o
then_compare Ordering.gt o = Ordering.gt

abbrev pub text_compare : Text → Text → Ordering
text_compare [] [] = Ordering.eq
text_compare [] (y ∷ ys) = Ordering.lt
text_compare (x ∷ xs) [] = Ordering.gt
text_compare (x ∷ xs) (y ∷ ys) = then_compare (compare x y) (text_compare xs ys)

-- `s <= t`
abbrev pub text_le : Text → Text → Bool
text_le s t = elim (text_compare s t) [ Ordering.gt ↦ false | _ ↦ true ]

pub text_eq_refl : (s : Text) → text_eq s s ≡ true
text_eq_refl [] = refl
text_eq_refl (x ∷ xs) = ground (arith, text_eq_refl xs)

pub text_eq→eq : (s t : Text) → text_eq s t ≡ true → s ≡ t
text_eq→eq [] [] h = refl
text_eq→eq [] (y ∷ ys) h = cc
text_eq→eq (x ∷ xs) [] h = cc
text_eq→eq (x ∷ xs) (y ∷ ys) h = ground (arith, text_eq→eq xs ys)

pub text_compare-eq : (s t : Text) → text_compare s t ≡ Ordering.eq → s ≡ t
text_compare-eq [] [] h = refl
text_compare-eq [] (y ∷ ys) h = cc
text_compare-eq (x ∷ xs) [] h = cc
text_compare-eq (x ∷ xs) (y ∷ ys) h = ground (arith, text_compare-eq xs ys)

pub text_compare_refl : (s : Text) → text_compare s s ≡ Ordering.eq
text_compare_refl [] = refl
text_compare_refl (x ∷ xs) = ground (arith, text_compare_refl xs)

abbrev pub flip : Ordering → Ordering
flip Ordering.lt = Ordering.gt
flip Ordering.eq = Ordering.eq
flip Ordering.gt = Ordering.lt

pub text_compare-flip : (s t : Text) → text_compare t s ≡ flip (text_compare s t)
text_compare-flip [] [] = refl
text_compare-flip [] (y ∷ ys) = refl
text_compare-flip (x ∷ xs) [] = refl
text_compare-flip (x ∷ xs) (y ∷ ys) = ground (arith, text_compare-flip xs ys)

pub text_compare_trans :
    (s t u : Text)
    → text_compare s t ≡ Ordering.lt
    → text_compare t u ≡ Ordering.lt
    → text_compare s u ≡ Ordering.lt
text_compare_trans [] [] u h k = cc
text_compare_trans [] (y ∷ t) [] h k = cc
text_compare_trans [] (y ∷ t) (z ∷ u) h k = refl
text_compare_trans (x ∷ s) [] u h k = cc
text_compare_trans (x ∷ s) (y ∷ t) [] h k = cc
text_compare_trans (x ∷ s) (y ∷ t) (z ∷ u) h k = ground (arith, text_compare_trans s t u)

-- The code points that `str.strip` removes.
abbrev pub is_whitespace : ℕ → Bool
is_whitespace c =
    (leb 9 c && leb c 13)
    || ((leb 28 c && leb c 32)
        || (c == 133
            || (c == 160
                || (c == 5760
                    || ((leb 8192 c && leb c 8202)
                        || (c == 8232
                            || (c == 8233 || (c == 8239 || (c == 8287 || c == 12288)))))))))

-- `not t or not t.strip()`
abbrev pub is_blank : Text → Bool
is_blank t = all is_whitespace t

-- The decimal digits of a number; as much fuel as the number itself is enough.
unfoldable pub digits_by : ℕ → ℕ → Text
digits_by zero n = (48 + n % 10) ∷ []
digits_by (suc fuel) n =
    let rest = digits_by fuel (n / 10) in
    if ltb n 10 then (48 + n) ∷ [] else rest ++ (48 + n % 10) ∷ []

-- `str(n)`
unfoldable pub decimal_digits : ℕ → Text
unfolding digits_by
decimal_digits n = digits_by n n
