-- ===== src/Common/Perm.antt =====
-- What a permutation of a list leaves as it is: members, and what is kept, counted, found and mapped.
use mathlib.Core.List.{Permᴰ}
use mathlib.Core.List.Permᴰ
use mathlib.Core.Path.{◌≡◌, refl, sym, ap, ◌∙◌}
use ledger_exception_control.Common.{
  List, Bool, keep, length, In, map, any, ◌||◌, suc, inl, Bool-cases, arith, inr, ◌∷◌,
}

pub perm-In : {A : Type 0} (a : A) {l m : List A} → Permᴰ l m → In a m → In a l
perm-In a Permᴰ.nil h = h
perm-In a (Permᴰ.cons e p) (inl h) = inl (h ∙ sym e)
perm-In a (Permᴰ.cons e p) (inr h) = inr (perm-In a p h)
perm-In a (Permᴰ.swap e f) (inl h) = inr (inl (h ∙ sym f))
perm-In a (Permᴰ.swap e f) (inr (inl h)) = inl (h ∙ sym e)
perm-In a (Permᴰ.swap e f) (inr (inr h)) = inr (inr h)
perm-In a (Permᴰ.trans p q) h = perm-In a p (perm-In a q h)

-- What a test keeps of a list, and how many pass it.
pub keep-perm : {A : Type 0} (p : A → Bool) {l m : List A} → Permᴰ l m → Permᴰ (keep p l) (keep p m)
keep-perm p Permᴰ.nil = Permᴰ.nil
keep-perm p (Permᴰ.cons {a = x} e q) = rw (← e) (elim (Bool-cases (p x)) [
  | inl t ↦ rw t (Permᴰ.cons refl (keep-perm p q))
  | inr t ↦ rw t (keep-perm p q)
])
keep-perm p (Permᴰ.swap {a = x} {b = y} {l = l} e f) =
    rw (← e, ← f)
      (elim (Bool-cases (p x)) [
        | inl t ↦ elim (Bool-cases (p y)) [
          | inl u ↦ rw (t, u) (Permᴰ.swap refl refl)
          | inr u ↦ rw (t, u) (Permᴰ.refl (x ∷ keep p l))
        ]
        | inr t ↦ elim (Bool-cases (p y)) [
          | inl u ↦ rw (t, u) (Permᴰ.refl (y ∷ keep p l))
          | inr u ↦ rw (t, u) (Permᴰ.refl (keep p l))
        ]
      ])
keep-perm p (Permᴰ.trans q r) = Permᴰ.trans (keep-perm p q) (keep-perm p r)

-- Observations of a list that its order does not change.
pub length-perm : {A : Type 0} {l m : List A} → Permᴰ l m → length l ≡ length m
length-perm Permᴰ.nil = refl
length-perm (Permᴰ.cons e p) = ap suc (length-perm p)
length-perm (Permᴰ.swap e f) = refl
length-perm (Permᴰ.trans p q) = length-perm p ∙ length-perm q

pub any-perm : {A : Type 0} (p : A → Bool) {l m : List A} → Permᴰ l m → any p l ≡ any p m
any-perm p Permᴰ.nil = refl
any-perm p (Permᴰ.cons e q) = cc (any-perm p q)
any-perm p (Permᴰ.swap {a = x} {b = y} {l = l} e f) = rw (← e, ← f) (or_swap (p x) (p y) (any p l))
  where
    or_swap : (a b c : Bool) → a || (b || c) ≡ b || (a || c)
    or_swap a b c = ground arith
any-perm p (Permᴰ.trans q r) = any-perm p q ∙ any-perm p r

pub map-perm : {A B : Type 0} (f : A → B) {l m : List A} → Permᴰ l m → Permᴰ (map f l) (map f m)
map-perm f Permᴰ.nil = Permᴰ.nil
map-perm f (Permᴰ.cons e p) = Permᴰ.cons (ap f e) (map-perm f p)
map-perm f (Permᴰ.swap e g) = Permᴰ.swap (ap f e) (ap f g)
map-perm f (Permᴰ.trans p q) = Permᴰ.trans (map-perm f p) (map-perm f q)
