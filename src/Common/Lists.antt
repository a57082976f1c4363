-- ===== src/Common/Lists.antt =====
-- Lists measured by native numbers, filtered by Boolean tests, and searched.
use Prim.Native.Nat.{ℕ, zero, suc, ◌+◌, ◌≤◌}
use mathlib.Core.Path.{◌≡◌, refl, ap}
use mathlib.Core.Logic.{◌⊎◌, inl, inr}
use mathlib.Core.Bool.{Bool, true, false, ◌&&◌, ◌||◌}
use mathlib.Core.List.{List, [], ◌∷◌, ◌++◌, map}
use native.Mathlib.Omega.{arith}
use ledger_exception_control.Common.Tests.{◌==◌, if◌then◌else◌, Bool-cases}

module _ {ℓ} {A : Type ℓ} where
  abbrev pub length : List A → ℕ
  length [] = 0
  length (x ∷ xs) = suc (length xs)

  -- `[x for x in xs if p(x)]`
  abbrev pub keep : (A → Bool) → List A → List A
  keep p [] = []
  keep p (x ∷ xs) = if p x then x ∷ keep p xs else keep p xs

  abbrev pub any : (A → Bool) → List A → Bool
  any p [] = false
  any p (x ∷ xs) = p x || any p xs

  abbrev pub all : (A → Bool) → List A → Bool
  all p [] = true
  all p (x ∷ xs) = p x && all p xs

  abbrev pub All {κ} : (A → Type κ) → List A → Type κ
  All P [] = Unit
  All P (x ∷ xs) = P x × All P xs

module _ {ℓ} {A : Type ℓ} where
  -- `xs[:n]`
  abbrev pub take : ℕ → List A → List A
  take zero xs = []
  take (suc n) [] = []
  take (suc n) (x ∷ xs) = x ∷ take n xs

  pub take_bounds :
      (n : ℕ) (xs : List A) → (length (take n xs) ≤ n) × (length (take n xs) ≤ length xs)
  take_bounds zero xs = (omega arith, omega arith)
  take_bounds (suc n) [] = (omega arith, omega arith)
  take_bounds (suc n) (x ∷ xs) = let h = take_bounds n xs in (omega (arith, h), omega (arith, h))

  pub all-take : (p : A → Bool) (n : ℕ) (xs : List A) → all p xs ≡ true → all p (take n xs) ≡ true
  all-take p zero xs h = refl
  all-take p (suc n) [] h = refl
  all-take p (suc n) (x ∷ xs) h = ground (arith, all-take p n xs)

  pub all-append :
      (p : A → Bool) (xs ys : List A) → all p xs ≡ true → all p ys ≡ true → all p (xs ++ ys) ≡ true
  all-append p [] ys h k = k
  all-append p (x ∷ xs) ys h k = ground (arith, all-append p xs ys)

  pub All-append {κ} : (P : A → Type κ) (xs ys : List A) → All P xs → All P ys → All P (xs ++ ys)
  All-append P [] ys h k = k
  All-append P (x ∷ xs) ys h k = (h.0, All-append P xs ys h.1 k)

  pub length-append : (xs ys : List A) → length (xs ++ ys) ≡ length xs + length ys
  length-append [] ys = omega arith
  length-append (x ∷ xs) ys = omega (arith, length-append xs ys)

  pub keep-append : (p : A → Bool) (xs ys : List A) → keep p (xs ++ ys) ≡ keep p xs ++ keep p ys
  keep-append p [] ys = refl
  keep-append p (x ∷ xs) ys = ground (arith, keep-append p xs ys)

module _ {ℓ} {A : Type ℓ} where
  pub any-append_last :
      (p : A → Bool) (xs : List A) (x : A) → p x ≡ true → any p (xs ++ x ∷ []) ≡ true
  any-append_last p [] x h = ground (arith, h)
  any-append_last p (y ∷ xs) x h = ground (arith, any-append_last p xs x h)

module _ {A : Type 0} where
  -- Membership by recursion, so that the tactics read it as a disjunction.
  abbrev pub In : A → List A → Type 0
  In a [] = ⊥
  In a (x ∷ xs) = (a ≡ x) ⊎ In a xs

  pub In-append_left : (a : A) (xs ys : List A) → In a xs → In a (xs ++ ys)
  In-append_left a [] ys m = elim m [ ]
  In-append_left a (x ∷ xs) ys m = ground (arith, In-append_left a xs ys)

  pub In-append_right : (a : A) (xs ys : List A) → In a ys → In a (xs ++ ys)
  In-append_right a [] ys m = m
  In-append_right a (x ∷ xs) ys m = inr (In-append_right a xs ys m)

  pub In-append_cases : (a : A) (xs ys : List A) → In a (xs ++ ys) → In a xs ⊎ In a ys
  In-append_cases a [] ys m = inr m
  In-append_cases a (x ∷ xs) ys m = ground (arith, In-append_cases a xs ys)

  -- What a test keeps was there and passes it, and conversely.
  pub In-keep : (p : A → Bool) (a : A) (xs : List A) → In a xs → p a ≡ true → In a (keep p xs)
  In-keep p a [] m h = m
  In-keep p a (x ∷ xs) m h = ground (arith, In-keep p a xs)

  pub keep-In : (p : A → Bool) (a : A) (xs : List A) → In a (keep p xs) → In a xs × (p a ≡ true)
  keep-In p a [] m = elim m [ ]
  keep-In p a (x ∷ xs) m = ground (arith, keep-In p a xs)

  -- Two members of a list of one element are the same.
  pub singleton-In : (a b : A) (xs : List A) → length xs ≡ 1 → In a xs → In b xs → a ≡ b
  singleton-In a b [] h m k = elim m [ ]
  singleton-In a b (x ∷ []) h m k = ground arith
  singleton-In a b (x ∷ y ∷ xs) h m k = absurd (omega arith)

  pub any-In : (p : A → Bool) (a : A) (xs : List A) → In a xs → p a ≡ true → any p xs ≡ true
  any-In p a [] m h = elim m [ ]
  any-In p a (x ∷ xs) m h = ground (arith, any-In p a xs)

  pub any-In-witness :
      (p : A → Bool) (xs : List A) → any p xs ≡ true → (a : A) × In a xs × (p a ≡ true)
  any-In-witness p [] h = absurd (cc)
  any-In-witness p (x ∷ xs) h = elim (Bool-cases (p x)) [
    | inl q ↦ (x, inl refl, q)
    | inr q ↦ let (a, m, k) = any-In-witness p xs (ground arith) in (a, inr m, k)
  ]

  pub all-In : (p : A → Bool) (a : A) (xs : List A) → all p xs ≡ true → In a xs → p a ≡ true
  all-In p a [] h m = elim m [ ]
  all-In p a (x ∷ xs) h m = ground (arith, all-In p a xs)

  pub All-in {κ} : (P : A → Type κ) (a : A) (xs : List A) → All P xs → In a xs → P a
  All-in P a [] h m = elim m [ ]
  All-in P a (x ∷ xs) h (inl e) = rw e h.0
  All-in P a (x ∷ xs) h (inr m) = All-in P a xs h.1 m

module _ {A B : Type 0} where
  pub In-map : (f : A → B) (a : A) (xs : List A) → In a xs → In (f a) (map f xs)
  In-map f a [] m = m
  In-map f a (x ∷ xs) (inl e) = inl (ap f e)
  In-map f a (x ∷ xs) (inr m) = inr (In-map f a xs m)

  pub map-In : (f : A → B) (b : B) (xs : List A) → In b (map f xs) → (a : A) × In a xs × (b ≡ f a)
  map-In f b [] m = elim m [ ]
  map-In f b (x ∷ xs) (inl e) = (x, inl refl, e)
  map-In f b (x ∷ xs) (inr m) = let (a, l, e) = map-In f b xs m in (a, inr l, e)

-- Sets of identifiers are lists that are asked for membership.
abbrev pub contains : ℕ → List ℕ → Bool
contains k xs = any (λ x. k == x) xs

-- No identifier is listed twice.
abbrev pub Distinct : List ℕ → Type 0
Distinct [] = Unit
Distinct (x ∷ xs) = (contains x xs ≡ false) × Distinct xs

pub contains-In : (k : ℕ) (xs : List ℕ) → contains k xs ≡ true → In k xs
contains-In k [] h = absurd (cc)
contains-In k (x ∷ xs) h = ground (arith, contains-In k xs)

pub In-contains : (k : ℕ) (xs : List ℕ) → In k xs → contains k xs ≡ true
In-contains k [] m = elim m [ ]
In-contains k (x ∷ xs) m = ground (arith, In-contains k xs)

-- Where identifiers are distinct, an element is determined by its own.
pub Distinct-determines :
    {A : Type 0} (id : A → ℕ) (a b : A) (xs : List A)
    → Distinct (map id xs)
    → In a xs
    → In b xs
    → id a ≡ id b
    → a ≡ b
Distinct-determines id a b [] d m k e = elim m [ ]
Distinct-determines id a b (x ∷ xs) d m k e = ground (
  arith,
  Distinct-determines id a b xs,
  In-map id a xs,
  In-map id b xs,
  In-contains (id a) (map id xs),
  In-contains (id b) (map id xs),
)
