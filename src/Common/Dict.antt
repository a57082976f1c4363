-- ===== src/Common/Dict.antt =====
-- Dictionaries of texts: the pairs in their order of insertion, of which the first of a key counts.
use ledger_exception_control.Common.{
  ℕ, List, Option, ◌≡◌, none, ◌∷◌, some, refl, false, if◌then◌else◌, arith, [], Bool-cases, inl,
  inr, ap, true, ◌+◌, suc, sym,
}
use ledger_exception_control.Common.Text.{Text, text_eq, text_eq_refl, text_eq→eq}

abbrev pub Dict {ℓ} : Type ℓ → Type ℓ
Dict A = List (Text × A)

unfoldable pub get {ℓ} : {A : Type ℓ} → Dict A → Text → Option A
get [] key = none
get ((k, v) ∷ d) key = if text_eq k key then some v else get d key

-- `d[key] = value`
unfoldable pub put {ℓ} : {A : Type ℓ} → Dict A → Text → A → Dict A
put [] key value = (key, value) ∷ []
put ((k, v) ∷ d) key value =
    let rest = put d key value in if text_eq k key then (k, value) ∷ d else (k, v) ∷ rest

-- `d.get(key, 0)`
abbrev pub or_zero : Option ℕ → ℕ
or_zero none = 0
or_zero (some n) = n

unfoldable pub count_of : Dict ℕ → Text → ℕ
unfolding get
count_of d key = or_zero (get d key)

pub get-put {ℓ} :
    {A : Type ℓ} → (d : Dict A) (key : Text) (value : A) → get (put d key value) key ≡ some value
unfolding get put
get-put [] key value = rw (text_eq_refl key) refl
get-put ((k, v) ∷ d) key value = ground (arith, get-put d key value)

pub get-put_other {ℓ} :
    {A : Type ℓ}
    → (d : Dict A) (key other : Text) (value : A) → text_eq key other ≡ false
    → get (put d key value) other ≡ get d other
unfolding get put
get-put_other [] key other value h = rw h refl
get-put_other ((k, v) ∷ d) key other value h = elim (Bool-cases (text_eq k key)) [
  | inl e ↦ rw (e, text_eq→eq k key e, h) refl
  | inr e ↦
      rw e (ap (λ r. if text_eq k other then some v else r) (get-put_other d key other value h))
]

pub count_of-put : (d : Dict ℕ) (key : Text) (n : ℕ) → count_of (put d key n) key ≡ n
unfolding count_of
count_of-put d key n = rw (get-put d key n) refl

pub count_of-put_other :
    (d : Dict ℕ) (key other : Text) (n : ℕ)
    → text_eq key other ≡ false
    → count_of (put d key n) other ≡ count_of d other
unfolding count_of
count_of-put_other d key other n h = rw (get-put_other d key other n h) refl

-- Counting a key once more.
pub count_of-bump :
    (d : Dict ℕ) (key other : Text)
    → text_eq key other ≡ true
    → count_of (put d key (count_of d key + 1)) other ≡ suc (count_of d other)
count_of-bump d key other e =
    let g = count_of-put d key (count_of d key + 1) in
    rw (sym (text_eq→eq key other e)) (omega (arith, g))
