-- ===== src/Ingest/Reason.antt =====
-- ingest/errors.py: that a reason can be rendered, within its bound and its characters.
use ledger_exception_control.Common.{
  ℕ, none, some, Option, Bool, List, [], ◌∷◌, ◌++◌, ◌≤◌, ◌≡◌, ◌≢◌, true, all, length, take, arith,
  refl, all-append, all-take, take_bounds, length-append, Bool-cases, inl, inr, suc, zero, ltb, ◌-◌,
  ◌<◌, ◌%◌, ◌==◌, ◌+◌, ◌/◌,
}
use ledger_exception_control.Common.Text.{Text, codes, decimal_digits, digits_by}
use ledger_exception_control.Common.Order.{sort_by, sort_by-all}
use ledger_exception_control.Ingest.Defect.{
  Defect, QuarantineCode, code_value, is_reason_allowed, render, render_parts, join_rendered,
  counted_reason, bounded_reason, render_reason, defect_le, max_reason_length,
}

-- A column whose name consists of characters that a reason may hold.
abbrev pub column_allowed : Option Text → Bool
column_allowed none = true
column_allowed (some c) = all is_reason_allowed c

abbrev pub is_renderable : Defect → Bool
is_renderable d = column_allowed d.column

code-allowed : (c : QuarantineCode) → all is_reason_allowed (code_value c) ≡ true
code-allowed QuarantineCode.empty_payload = refl
code-allowed _ = refl

digit-allowed : (r : ℕ) → r < 10 → is_reason_allowed (48 + r) ≡ true
digit-allowed r h = ground arith

digits-allowed : (fuel n : ℕ) → all is_reason_allowed (digits_by fuel n) ≡ true
unfolding digits_by
digits-allowed zero n = rw (digit-allowed (n % 10) (omega arith)) refl
digits-allowed (suc fuel) n = elim (Bool-cases (ltb n 10)) [
  | inl small ↦ rw (small, digit-allowed n (ground (arith, small))) refl
  | inr large ↦ rw large (
      all-append is_reason_allowed (digits_by fuel (n / 10)) ((48 + n % 10) ∷ [])
        (digits-allowed fuel (n / 10)) (rw (digit-allowed (n % 10) (omega arith)) refl))
]

module _ (p : ℕ → Bool) where
  all-append3 :
      (xs ys zs : Text)
      → all p xs ≡ true
      → all p ys ≡ true
      → all p zs ≡ true
      → all p (xs ++ ys ++ zs) ≡ true
  all-append3 xs ys zs h k l = all-append p (xs ++ ys) zs (all-append p xs ys h k) l

number-allowed : (n : ℕ) → all is_reason_allowed (decimal_digits n) ≡ true
unfolding decimal_digits
number-allowed n = digits-allowed n n

parts-allowed :
    (code : Text) (line : Option ℕ) (column : Option Text)
    → all is_reason_allowed code ≡ true
    → column_allowed column ≡ true
    → all is_reason_allowed (render_parts code line column) ≡ true
parts-allowed code none none h k = h
parts-allowed code (some n) none h k =
    all-append3 is_reason_allowed code (codes ": line ") (decimal_digits n) h refl
      (number-allowed n)
parts-allowed code none (some c) h k =
    all-append3 is_reason_allowed code (codes ": column ") c h refl k
parts-allowed code (some n) (some c) h k =
    all-append3 is_reason_allowed (code ++ codes ": line " ++ decimal_digits n) (codes ", column ")
      c
      (all-append3 is_reason_allowed code (codes ": line ") (decimal_digits n) h refl
        (number-allowed n))
      refl k

render-allowed : (d : Defect) → is_renderable d ≡ true → all is_reason_allowed (render d) ≡ true
unfolding render
render-allowed d h = parts-allowed (code_value d.code) d.line d.column (code-allowed d.code) h

joined-allowed :
    (ds : List Defect)
    → all is_renderable ds ≡ true
    → all is_reason_allowed (join_rendered ds) ≡ true
unfolding join_rendered
joined-allowed [] h = refl
joined-allowed (d ∷ []) h = render-allowed d (ground (arith, h))
joined-allowed (d ∷ e ∷ ds) h =
    all-append3 is_reason_allowed (render d) (codes "; ") (join_rendered (e ∷ ds))
      (render-allowed d (ground (arith, h))) refl (joined-allowed (e ∷ ds) (ground (arith, h)))

counted-allowed :
    (ds : List Defect)
    → all is_renderable ds ≡ true
    → all is_reason_allowed (counted_reason ds) ≡ true
unfolding counted_reason
counted-allowed ds h =
    let shown = take 5 ds in
    let remaining = length ds - length shown in
    let joined = joined-allowed shown (all-take is_renderable 5 ds h) in
    elim (Bool-cases (remaining == 0)) [
      | inl all_shown ↦ rw all_shown joined
      | inr more ↦ rw more (
          all-append is_reason_allowed
            (join_rendered shown ++ codes "; (+" ++ decimal_digits remaining) (codes " more)")
            (all-append3 is_reason_allowed (join_rendered shown) (codes "; (+")
              (decimal_digits remaining) joined refl (number-allowed remaining))
            refl)
    ]

bounded-allowed :
    (t : Text) → all is_reason_allowed t ≡ true → all is_reason_allowed (bounded_reason t) ≡ true
bounded-allowed t h = elim (Bool-cases (ltb 512 (length t))) [
  | inl long ↦ rw long (
      all-append is_reason_allowed (take 500 t) (codes " (truncated)")
        (all-take is_reason_allowed 500 t h) refl)
  | inr short ↦ rw short h
]

bounded-length : (t : Text) → length (bounded_reason t) ≤ 512
bounded-length t = elim (Bool-cases (ltb 512 (length t))) [
  | inl long ↦ rw long (
      let l = length-append (take 500 t) (codes " (truncated)") in
      let b = take_bounds 500 t in omega (arith, l, b))
  | inr short ↦ rw short (ground (arith, short))
]

-- Whatever the defects of a batch are, at least one, in columns whose names consist of characters
-- that a reason may hold, `render_reason` returns a reason, of at most 512 characters, all of which
-- a reason may hold: it never raises.
pub render_reason-bounded :
    (ds : List Defect)
    → ds ≢ []
    → all is_renderable ds ≡ true
    → (reason : Text) × (render_reason ds ≡ some reason)
      × (length reason ≤ max_reason_length)
      × (all is_reason_allowed reason ≡ true)
unfolding render_reason
render_reason-bounded [] h k = absurd (h refl)
render_reason-bounded (d ∷ ds) h k =
    let ordered = sort_by defect_le (d ∷ ds) in
    let reason = bounded_reason (counted_reason ordered) in
    let ok : all is_reason_allowed reason ≡ true =
      bounded-allowed (counted_reason ordered)
        (counted-allowed ordered (sort_by-all defect_le is_renderable (d ∷ ds) k)) in
    (reason, rw ok refl, bounded-length (counted_reason ordered), ok)
