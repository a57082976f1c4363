-- ===== src/Common/Order.antt =====
-- Python's `sorted(xs, key=...)` and the database's `ORDER BY`, for any test "comes no later than":
-- a stable insertion sort, with what it keeps and that its result is in order.
use mathlib.Core.Path.{◌≡◌, refl}
use mathlib.Core.Logic.{◌↔◌, ◌⊎◌}
use mathlib.Core.Bool.{Bool, true, false, ◌||◌}
use mathlib.Core.List.{List, [], ◌∷◌, map}
use Prim.Native.Nat.{suc, ℕ}
use native.Mathlib.Omega.{arith}
use ledger_exception_control.Common.Tests.{◌==◌, if◌then◌else◌}
use ledger_exception_control.Common.Lists.{In, length, all, Distinct, contains}

module _ {A : Type 0} (le : A → A → Bool) where
  unfoldable pub insert_by : A → List A → List A
  insert_by x [] = x ∷ []
  insert_by x (y ∷ ys) = if le x y then x ∷ y ∷ ys else y ∷ insert_by x ys

  unfoldable pub sort_by : List A → List A
  sort_by [] = []
  sort_by (x ∷ xs) = insert_by x (sort_by xs)

  insert_by-In : (a x : A) (l : List A) → In a (insert_by x l) ↔ ((a ≡ x) ⊎ In a l)
  unfolding insert_by
  insert_by-In a x [] = (λ h. h, λ h. h)
  insert_by-In a x (y ∷ l) = ground (arith, insert_by-In a x l)

  pub sort_by-In : (a : A) (l : List A) → In a (sort_by l) ↔ In a l
  unfolding sort_by
  sort_by-In a [] = (λ h. h, λ h. h)
  sort_by-In a (x ∷ l) = ground (arith, insert_by-In a x (sort_by l), sort_by-In a l)

  insert_by-length : (x : A) (l : List A) → length (insert_by x l) ≡ suc (length l)
  unfolding insert_by
  insert_by-length x [] = refl
  insert_by-length x (y ∷ l) = ground (arith, insert_by-length x l)

  pub sort_by-length : (l : List A) → length (sort_by l) ≡ length l
  unfolding sort_by
  sort_by-length [] = refl
  sort_by-length (x ∷ l) = ground (arith, insert_by-length x (sort_by l), sort_by-length l)

  insert_by-all :
      (p : A → Bool) (x : A) (l : List A)
      → p x ≡ true
      → all p l ≡ true
      → all p (insert_by x l) ≡ true
  unfolding insert_by
  insert_by-all p x [] h k = ground (arith, h)
  insert_by-all p x (y ∷ l) h k = ground (arith, insert_by-all p x l)

  pub sort_by-all : (p : A → Bool) (l : List A) → all p l ≡ true → all p (sort_by l) ≡ true
  unfolding sort_by
  sort_by-all p [] h = refl
  sort_by-all p (x ∷ l) h = ground (arith, insert_by-all p x (sort_by l), sort_by-all p l)

  -- What stands first comes no later than what stands behind it.
  abbrev pub IsOrdered : List A → Type 0
  IsOrdered [] = Unit
  IsOrdered (x ∷ xs) = (all (le x) xs ≡ true) × IsOrdered xs

  module _ (total : (x y : A) → le x y ≡ false → le y x ≡ true)
      (trans : (x y z : A) → le x y ≡ true → le y z ≡ true → le x z ≡ true) where
    all_later : (x y : A) (l : List A) → le x y ≡ true → all (le y) l ≡ true → all (le x) l ≡ true
    all_later x y [] h k = refl
    all_later x y (z ∷ l) h k = ground (arith, all_later x y l, trans x y z)

    insert_by-IsOrdered : (x : A) (l : List A) → IsOrdered l → IsOrdered (insert_by x l)
    unfolding insert_by
    insert_by-IsOrdered x [] h = (refl, tt)
    insert_by-IsOrdered x (y ∷ l) h =
        ground
          (arith, total x y, all_later x y l, insert_by-all (le y) x l, insert_by-IsOrdered x l)

    pub sort_by-IsOrdered : (l : List A) → IsOrdered (sort_by l)
    unfolding sort_by
    sort_by-IsOrdered [] = tt
    sort_by-IsOrdered (x ∷ l) = insert_by-IsOrdered x (sort_by l) (sort_by-IsOrdered l)

  contains-insert_by :
      (id : A → ℕ) (k : ℕ) (x : A) (l : List A)
      → contains k (map id (insert_by x l)) ≡ (k == id x) || contains k (map id l)
  unfolding insert_by
  contains-insert_by id k x [] = refl
  contains-insert_by id k x (y ∷ l) = ground (arith, contains-insert_by id k x l)

  contains-sort_by :
      (id : A → ℕ) (k : ℕ) (l : List A) → contains k (map id (sort_by l)) ≡ contains k (map id l)
  unfolding sort_by
  contains-sort_by id k [] = refl
  contains-sort_by id k (x ∷ l) =
      ground (arith, contains-insert_by id k x (sort_by l), contains-sort_by id k l)

  insert_by-Distinct :
      (id : A → ℕ) (x : A) (l : List A)
      → contains (id x) (map id l) ≡ false
      → Distinct (map id l)
      → Distinct (map id (insert_by x l))
  unfolding insert_by
  insert_by-Distinct id x [] h d = (refl, tt)
  insert_by-Distinct id x (y ∷ l) h d =
      ground (arith, insert_by-Distinct id x l, contains-insert_by id (id y) x l)

  pub sort_by-Distinct :
      (id : A → ℕ) (l : List A) → Distinct (map id l) → Distinct (map id (sort_by l))
  unfolding sort_by
  sort_by-Distinct id [] d = d
  sort_by-Distinct id (x ∷ l) d = ground (
    arith,
    sort_by-Distinct id l,
    contains-sort_by id (id x) l,
    insert_by-Distinct id x (sort_by l),
  )
