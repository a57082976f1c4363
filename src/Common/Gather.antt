-- ===== src/Common/Gather.antt =====
-- `gather f xs`: what `f` gives for the elements of a list, in their order, where it gives something.
use Prim.Native.Nat.{ℕ}
use mathlib.Core.Path.{◌≡◌, refl, sym, ap, ◌∙◌}
use mathlib.Core.Logic.{◌⊎◌, inl, inr}
use mathlib.Core.Bool.{false}
use mathlib.Core.Option.{Option, none, some}
use mathlib.Core.List.{List, [], ◌∷◌, map}
use native.Mathlib.Omega.{arith}
use ledger_exception_control.Common.Tests.{Option-cases, Bool-cases}
use ledger_exception_control.Common.Lists.{
  In, contains, Distinct, contains-In, In-contains, In-map, map-In,
}
use ledger_exception_control.Common.{Bool, ◌++◌, keep, In-append_cases, keep-In}

pub not-In : (k : ℕ) (xs : List ℕ) → contains k xs ≡ false → In k xs → ⊥
not-In k xs h m = cc (In-contains k xs m)

pub contains-false : (k : ℕ) (xs : List ℕ) → (In k xs → ⊥) → contains k xs ≡ false
contains-false k xs h = elim (Bool-cases (contains k xs)) [
  | inl c ↦ absurd (h (contains-In k xs c))
  | inr n ↦ n
]

abbrev pub push {ℓ} : {B : Type ℓ} → Option B → List B → List B
push none ys = ys
push (some y) ys = y ∷ ys

module _ {A B : Type 0} where
  abbrev pub gather : (A → Option B) → List A → List B
  gather f [] = []
  gather f (x ∷ xs) = push (f x) (gather f xs)

  pub gather-In :
      (f : A → Option B) (b : B) (xs : List A)
      → In b (gather f xs)
      → (a : A) × In a xs × (f a ≡ some b)
  gather-In f b [] m = elim m [ ]
  gather-In f b (x ∷ xs) m = elim (Option-cases (f x)) [
    | inl e ↦ let (a, l, h) = gather-In f b xs (rw e at m) in (a, inr l, h)
    | inr (y, e) ↦
        let m' : In b (y ∷ gather f xs) = rw e at m in
        elim m' [
          | inl q ↦ (x, inl refl, e ∙ ap some (sym q))
          | inr n ↦ let (a, l, h) = gather-In f b xs n in (a, inr l, h)
        ]
  ]

  pub In-gather :
      (f : A → Option B) (a : A) (b : B) (xs : List A) → In a xs → f a ≡ some b → In b (gather f xs)
  In-gather f a b [] m h = m
  In-gather f a b (x ∷ xs) m h = ground (arith, In-gather f a b xs)

  pub gather-none :
      (f : A → Option B) (xs : List A) → ((a : A) → In a xs → f a ≡ none) → gather f xs ≡ []
  gather-none f [] h = refl
  gather-none f (x ∷ xs) h = rw (h x (inl refl)) (gather-none f xs (λ a m. h a (inr m)))

  module _ (id : A → ℕ) where
    -- Where only one element is given something, that is all that is gathered.
    pub gather-one :
        (f : A → Option B) (a : A) (b : B) (xs : List A)
        → Distinct (map id xs)
        → In a xs
        → f a ≡ some b
        → ((x : A) → In x xs → (f x ≡ none) ⊎ (id x ≡ id a))
        → gather f xs ≡ b ∷ []
    gather-one f a b [] d m h only = elim m [ ]
    gather-one f a b (x ∷ xs) d (inl e) h only = rw (ap f (sym e) ∙ h) (
        ap (λ ys. b ∷ ys)
          (gather-none f xs λ a' l. elim (only a' (inr l)) [
            | inl n ↦ n
            | inr q ↦
                absurd
                  (not-In (id x) (map id xs) d.0 (rw (ap id (sym e) ∙ sym q) (In-map id a' xs l)))
          ]))
    gather-one f a b (x ∷ xs) d (inr m) h only = elim (only x (inl refl)) [
      | inl n ↦ rw n (gather-one f a b xs d.1 m h (λ y l. only y (inr l)))
      | inr q ↦ absurd (not-In (id x) (map id xs) d.0 (rw q (In-map id a xs m)))
    ]

    -- Where equal keys come from equal identifiers only, no key is gathered twice.
    pub gather-Distinct :
        (key : B → ℕ) (f : A → Option B) (xs : List A)
        → Distinct (map id xs)
        → ((a a' : A) (b b' : B)
            → In a xs
            → In a' xs
            → f a ≡ some b
            → f a' ≡ some b'
            → key b ≡ key b'
            → id a ≡ id a')
        → Distinct (map key (gather f xs))
    gather-Distinct key f [] d h = tt
    gather-Distinct key f (x ∷ xs) d h =
        let rest = gather-Distinct key f xs d.1 (λ a a' b b' m m'. h a a' b b' (inr m) (inr m')) in
        elim (Option-cases (f x)) [ inl e ↦ rw e rest | inr (y, e) ↦ rw e (fresh y e, rest) ]
      where
        fresh : (y : B) → f x ≡ some y → contains (key y) (map key (gather f xs)) ≡ false
        fresh y e = contains-false (key y) (map key (gather f xs)) λ i.
            let (z, m, k) = map-In key (key y) (gather f xs) i in
            let (a, l, g) = gather-In f z xs m in
            not-In (id x) (map id xs) d.0
              (rw (h x a y z (inl refl) (inr l) e g k) (In-map id a xs l))

-- Distinctness of lists that are joined or filtered.
pub append-Distinct :
    (xs ys : List ℕ)
    → Distinct xs
    → Distinct ys
    → ((k : ℕ) → In k xs → In k ys → ⊥)
    → Distinct (xs ++ ys)
append-Distinct [] ys d e h = e
append-Distinct (x ∷ xs) ys d e h = (
  contains-false x (xs ++ ys) (λ m. elim (In-append_cases x xs ys m) [
    | inl l ↦ not-In x xs d.0 l
    | inr r ↦ h x (inl refl) r
  ]),
  append-Distinct xs ys d.1 e (λ k m n. h k (inr m) n),
)

pub keep-Distinct :
    {A : Type 0} (id : A → ℕ) (p : A → Bool) (xs : List A)
    → Distinct (map id xs)
    → Distinct (map id (keep p xs))
keep-Distinct id p [] d = d
keep-Distinct id p (x ∷ xs) d = elim (Bool-cases (p x)) [
  | inl e ↦ rw e (
    contains-false (id x) (map id (keep p xs)) (λ m.
        let (a, n, q) = map-In id (id x) (keep p xs) m in
        not-In (id x) (map id xs) d.0 (rw q (In-map id a xs (keep-In p a xs n).0))),
    keep-Distinct id p xs d.1,
  )
  | inr e ↦ rw e (keep-Distinct id p xs d.1)
]
