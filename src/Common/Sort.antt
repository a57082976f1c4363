-- ===== src/Common/Sort.antt =====
-- Python's `sorted(xs, key=...)` for a key that is a text (or a number, as a text of one) and an
-- identifier, compared as a pair; and that the result does not depend on the order of the input.
use mathlib.Core.List.{Permᴰ}
use mathlib.Core.Path.{◌≡◌, refl, ◌∙◌}
use mathlib.Core.Logic.{◌↔◌, ◌⊎◌, inl, inr}
use mathlib.Core.Bool.{Bool, true, false, ◌||◌}
use mathlib.Core.List.{List, [], ◌∷◌, map}
use Prim.Native.Nat.{ℕ, compare, Ordering}
use native.Mathlib.Omega.{arith}
use ledger_exception_control.Common.Tests.{◌==◌, if◌then◌else◌}
use ledger_exception_control.Common.Lists.{In, contains, Distinct}
use ledger_exception_control.Common.Text.{
  Text, then_compare, text_compare, text_compare-eq, text_compare-flip, text_compare_trans,
}
use ledger_exception_control.Common.Perm.{perm-In}

abbrev pub Key : Type 0
Key = Text × ℕ

abbrev pub key_compare : Key → Key → Ordering
key_compare (s, i) (t, j) = then_compare (text_compare s t) (compare i j)

-- `a <= b` on the keys.
unfoldable pub key_le : Key → Key → Bool
key_le a b = elim (key_compare a b) [ Ordering.gt ↦ false | _ ↦ true ]

key_le_total : (a b : Key) → key_le a b ≡ false → key_le b a ≡ true
unfolding key_le
key_le_total (s, i) (t, j) h = ground (arith, text_compare-flip s t)

key_le_antisym : (a b : Key) → key_le a b ≡ true → key_le b a ≡ true → a ≡ b
unfolding key_le
key_le_antisym (s, i) (t, j) h k = ground (arith, text_compare-flip s t, text_compare-eq s t)

key_le_trans : (a b c : Key) → key_le a b ≡ true → key_le b c ≡ true → key_le a c ≡ true
unfolding key_le
key_le_trans (s, i) (t, j) (u, k) h l =
    ground (arith, text_compare_trans s t u, text_compare-eq s t, text_compare-eq t u)

module _ {A : Type 0} (key : A → Key) where
  unfoldable pub insert : A → List A → List A
  insert x [] = x ∷ []
  insert x (y ∷ ys) = if key_le (key x) (key y) then x ∷ y ∷ ys else y ∷ insert x ys

  unfoldable pub sorted : List A → List A
  sorted [] = []
  sorted (x ∷ xs) = insert x (sorted xs)

  insert_comm :
      (x y : A) (l : List A)
      → (key x ≡ key y → x ≡ y)
      → insert x (insert y l) ≡ insert y (insert x l)
  unfolding insert
  insert_comm x y [] same =
      ground (arith, same, key_le_total (key x) (key y), key_le_antisym (key x) (key y))
  insert_comm x y (a ∷ l) same = ground (
    arith,
    same,
    insert_comm x y l same,
    key_le_total (key x) (key y),
    key_le_antisym (key x) (key y),
    key_le_trans (key x) (key y) (key a),
    key_le_trans (key y) (key x) (key a),
  )

  -- Elements of equal keys are equal, as they are where the identifiers are distinct.
  abbrev pub KeyDetermines : List A → Type 0
  KeyDetermines l = (a b : A) → In a l → In b l → key a ≡ key b → a ≡ b

  -- The result of the sort depends only on which elements there are.
  pub sorted-perm : {l m : List A} → Permᴰ l m → KeyDetermines l → sorted l ≡ sorted m
  unfolding sorted
  sorted-perm Permᴰ.nil d = refl
  sorted-perm (Permᴰ.cons e p) d = cc (sorted-perm p (λ a b h k. d a b (inr h) (inr k)))
  sorted-perm (Permᴰ.swap {a = x} {b = y} {l = l} e f) d =
      cc (insert_comm x y (sorted l) (d x y (inl refl) (inr (inl refl))))
  sorted-perm (Permᴰ.trans p q) d =
      sorted-perm p d ∙ sorted-perm q (λ a b h k. d a b (perm-In a p h) (perm-In b p k))

  insert-In : (a x : A) (l : List A) → In a (insert x l) ↔ ((a ≡ x) ⊎ In a l)
  unfolding insert
  insert-In a x [] = (λ h. h, λ h. h)
  insert-In a x (y ∷ l) = ground (arith, insert-In a x l)

  pub sorted-In : (a : A) (l : List A) → In a (sorted l) ↔ In a l
  unfolding sorted
  sorted-In a [] = (λ h. h, λ h. h)
  sorted-In a (x ∷ l) = ground (arith, insert-In a x (sorted l), sorted-In a l)

  module _ (id : A → ℕ) where
    contains-insert :
        (k : ℕ) (x : A) (l : List A)
        → contains k (map id (insert x l)) ≡ (k == id x) || contains k (map id l)
    unfolding insert
    contains-insert k x [] = refl
    contains-insert k x (y ∷ l) = ground (arith, contains-insert k x l)

    contains-sorted : (k : ℕ) (l : List A) → contains k (map id (sorted l)) ≡ contains k (map id l)
    unfolding sorted
    contains-sorted k [] = refl
    contains-sorted k (x ∷ l) = ground (arith, contains-insert k x (sorted l), contains-sorted k l)

    insert-Distinct :
        (x : A) (l : List A)
        → contains (id x) (map id l) ≡ false
        → Distinct (map id l)
        → Distinct (map id (insert x l))
    unfolding insert
    insert-Distinct x [] h d = (refl, tt)
    insert-Distinct x (y ∷ l) h d = ground (arith, insert-Distinct x l, contains-insert (id y) x l)

    pub sorted-Distinct : (l : List A) → Distinct (map id l) → Distinct (map id (sorted l))
    unfolding sorted
    sorted-Distinct [] d = d
    sorted-Distinct (x ∷ l) d =
        ground (arith, sorted-Distinct l, contains-sorted (id x) l, insert-Distinct x (sorted l))
