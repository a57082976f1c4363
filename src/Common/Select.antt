-- ===== src/Common/Select.antt =====
-- `SELECT ... WHERE ... ORDER BY ... LIMIT ...` on the rows of a table: which rows it gives, where
-- the order is total. Rows that come level stand as in the table.
use Prim.Native.Nat.{ℕ, zero, suc, ◌≤◌}
use mathlib.Core.Path.{◌≡◌, refl}
use mathlib.Core.Logic.{◌⊎◌, inl, inr}
use mathlib.Core.Bool.{Bool, true, false}
use mathlib.Core.List.{List, [], ◌∷◌, map}
use native.Mathlib.Omega.{arith}
use ledger_exception_control.Common.Lists.{
  In, length, take, take_bounds, all, all-take, all-In, keep, keep-In, In-keep, contains, Distinct,
}
use ledger_exception_control.Common.Gather.{keep-Distinct}
use ledger_exception_control.Common.Order.{
  insert_by, sort_by, sort_by-In, IsOrdered, sort_by-IsOrdered, sort_by-Distinct,
}

module _ {A : Type 0} where
  unfoldable pub select_first : (A → A → Bool) → (A → Bool) → ℕ → List A → List A
  unfolding sort_by insert_by
  select_first le p limit rows = take limit (sort_by le (keep p rows))

  -- At most so many rows, which fit and stand in order; a row that fits and is not given comes no
  -- earlier than those that are, and there are as many as may be.
  pub record IsFirst (le : A → A → Bool) (p : A → Bool) (limit : ℕ) (rows : List A)
      (result : List A) : Type 0 where
    pub within : length result ≤ limit
    pub fitting : (a : A) → In a result → In a rows × (p a ≡ true)
    pub ordered : IsOrdered le result
    pub earliest :
        (a : A)
        → In a rows
        → p a ≡ true
        → In a result ⊎ ((length result ≡ limit) × (all (λ c. le c a) result ≡ true))

  take-In : (a : A) (n : ℕ) (xs : List A) → In a (take n xs) → In a xs
  take-In a zero xs h = elim h [ ]
  take-In a (suc n) [] h = h
  take-In a (suc n) (x ∷ xs) (inl e) = inl e
  take-In a (suc n) (x ∷ xs) (inr m) = inr (take-In a n xs m)

  take-contains :
      (id : A → ℕ) (k n : ℕ) (xs : List A)
      → contains k (map id xs) ≡ false
      → contains k (map id (take n xs)) ≡ false
  take-contains id k zero xs h = refl
  take-contains id k (suc n) [] h = h
  take-contains id k (suc n) (x ∷ xs) h = ground (arith, take-contains id k n xs)

  take-Distinct :
      (id : A → ℕ) (n : ℕ) (xs : List A) → Distinct (map id xs) → Distinct (map id (take n xs))
  take-Distinct id zero xs d = tt
  take-Distinct id (suc n) [] d = tt
  take-Distinct id (suc n) (x ∷ xs) (apart, d) =
      (take-contains id (id x) n xs apart, take-Distinct id n xs d)

  take-IsOrdered :
      (le : A → A → Bool) (n : ℕ) (xs : List A) → IsOrdered le xs → IsOrdered le (take n xs)
  take-IsOrdered le zero xs h = tt
  take-IsOrdered le (suc n) [] h = tt
  take-IsOrdered le (suc n) (x ∷ xs) (h, o) = (all-take (le x) n xs h, take-IsOrdered le n xs o)

  take-earliest :
      (le : A → A → Bool) (a : A) (n : ℕ) (xs : List A)
      → IsOrdered le xs
      → In a xs
      → In a (take n xs) ⊎ ((length (take n xs) ≡ n) × (all (λ c. le c a) (take n xs) ≡ true))
  take-earliest le a zero xs h m = inr (refl, refl)
  take-earliest le a (suc n) [] h m = elim m [ ]
  take-earliest le a (suc n) (x ∷ xs) h (inl e) = inl (inl e)
  take-earliest le a (suc n) (x ∷ xs) (h, o) (inr m) = elim (take-earliest le a n xs o m) [
    | inl there ↦ inl (inr there)
    | inr (full, before) ↦ inr (omega (arith, full), rw (all-In (le x) a xs h m) before)
  ]

  module _ (le : A → A → Bool) (total : (x y : A) → le x y ≡ false → le y x ≡ true)
      (trans : (x y z : A) → le x y ≡ true → le y z ≡ true → le x z ≡ true) where
    pub select_first-IsFirst :
        (p : A → Bool) (limit : ℕ) (rows : List A)
        → IsFirst le p limit rows (select_first le p limit rows)
    unfolding select_first
    select_first-IsFirst p limit rows =
        let fits = keep p rows in
        let ordered = sort_by-IsOrdered le total trans fits in
        record {
          within = (take_bounds limit (sort_by le fits)).0;
          fitting = λ a m.
              keep-In p a rows ((sort_by-In le a fits).0 (take-In a limit (sort_by le fits) m));
          ordered = take-IsOrdered le limit (sort_by le fits) ordered;
          earliest = λ a m q.
              take-earliest le a limit (sort_by le fits) ordered
                ((sort_by-In le a fits).1 (In-keep p a rows m q));
        }

  pub select_first-Distinct :
      (le : A → A → Bool) (p : A → Bool) (limit : ℕ) (id : A → ℕ) (rows : List A)
      → Distinct (map id rows)
      → Distinct (map id (select_first le p limit rows))
  unfolding select_first
  select_first-Distinct le p limit id rows d =
      take-Distinct id limit (sort_by le (keep p rows))
        (sort_by-Distinct le id (keep p rows) (keep-Distinct id p rows d))

  pub select_first-In :
      (le : A → A → Bool) (p : A → Bool) (limit : ℕ) (rows : List A) (a : A)
      → In a (select_first le p limit rows)
      → In a rows × (p a ≡ true)
  unfolding select_first
  select_first-In le p limit rows a m =
      keep-In p a rows
        ((sort_by-In le a (keep p rows)).0 (take-In a limit (sort_by le (keep p rows)) m))
