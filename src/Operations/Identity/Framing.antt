-- ===== src/Operations/Identity/Framing.antt =====
-- operations/identity.py: that the hashed bytes determine the components.
use ledger_exception_control.Common.{
  ℕ, zero, suc, List, [], ◌∷◌, ◌++◌, length, length-append, ◌/◌, ◌%◌, ◌^◌, ◌<◌, ◌≡◌, refl, ap, sym,
  arith, All, ◌↔◌, ◌≢◌, ◌≤◌, ◌∙◌,
}
use ledger_exception_control.Operations.Identity.{
  Bytes, to_bytes, framed, joined, labelled, labelled_all, operation_body, instruction_body,
  operation_domain_tag, instruction_domain_tag,
}
use native.Mathlib.Nat.{pow-suc}
use mathlib.Core.List.{append_assoc}

append-injective : (a b c d : Bytes) → length a ≡ length b → a ++ c ≡ b ++ d → (a ≡ b) × (c ≡ d)
append-injective [] [] c d h e = (refl, e)
append-injective [] (y ∷ b) c d h e = absurd (omega (arith, h))
append-injective (x ∷ a) [] c d h e = absurd (omega (arith, h))
append-injective (x ∷ a) (y ∷ b) c d h e =
    let (p, q) = append-injective a b c d (omega (arith, h)) (cc (e)) in (cc (e, p), q)

to_bytes-length : (width n : ℕ) → length (to_bytes width n) ≡ width
unfolding to_bytes
to_bytes-length zero n = refl
to_bytes-length (suc width) n =
    let l = length-append (to_bytes width (n / 256)) ((n % 256) ∷ []) in
    let h = to_bytes-length width (n / 256) in omega (arith, l, h)

to_bytes-injective :
    (width m n : ℕ)
    → m < 256 ^ width
    → n < 256 ^ width
    → to_bytes width m ≡ to_bytes width n
    → m ≡ n
unfolding to_bytes
to_bytes-injective zero m n a b e = omega (arith, a, b)
to_bytes-injective (suc width) m n a b e =
    let s = pow-suc 256 width in
    let k = to_bytes-length width (m / 256) in
    let l = to_bytes-length width (n / 256) in
    let (p, q) =
      append-injective (to_bytes width (m / 256)) (to_bytes width (n / 256)) _ _
        (omega (arith, k, l)) e in
    let r : m % 256 ≡ n % 256 = cc (q) in
    let t =
      to_bytes-injective width (m / 256) (n / 256) (omega (arith, a, s)) (omega (arith, b, s)) p in
    omega (arith, r, t)

-- A component that fits into the prefix.
abbrev pub Fits : Bytes → Type 0
Fits value = length value < 256 ^ 8

framed-injective :
    (v w c d : Bytes) → Fits v → Fits w → framed v ++ c ≡ framed w ++ d → (v ≡ w) × (c ≡ d)
unfolding framed
framed-injective v w c d a b e =
    let m = length v in
    let n = length w in
    let whole : to_bytes 8 m ++ (v ++ c) ≡ to_bytes 8 n ++ (w ++ d) =
      sym (append_assoc (to_bytes 8 m) v c) ∙ (e ∙ append_assoc (to_bytes 8 n) w d) in
    let k = to_bytes-length 8 m in
    let l = to_bytes-length 8 n in
    let (p, q) =
      append-injective (to_bytes 8 m) (to_bytes 8 n) (v ++ c) (w ++ d) (omega (arith, k, l))
        whole in
    append-injective v w c d (to_bytes-injective 8 m n a b p) q

framed-length : (v : Bytes) → 8 ≤ length (framed v)
unfolding framed
framed-length v =
    let l = length-append (to_bytes 8 (length v)) v in
    let k = to_bytes-length 8 (length v) in omega (arith, l, k)

not_framed : (v c : Bytes) → framed v ++ c ≢ []
not_framed v c e =
    let l = length-append (framed v) c in
    let k = framed-length v in let z = ap length e in omega (arith, l, k, z)

-- The joined frames determine the components, how many there are included, where each is shorter than
-- 256 ^ 8 bytes.
joined-injective :
    (vs ws : List Bytes) → All Fits vs → All Fits ws → joined vs ≡ joined ws → vs ≡ ws
unfolding joined
joined-injective [] [] a b e = refl
joined-injective [] (w ∷ ws) a b e = absurd (not_framed w (joined ws) (sym e))
joined-injective (v ∷ vs) [] a b e = absurd (not_framed v (joined vs) e)
joined-injective (v ∷ vs) (w ∷ ws) a b e =
    let (p, q) = framed-injective v w (joined vs) (joined ws) a.0 b.0 e in
    let r = joined-injective vs ws a.1 b.1 q in cc (p, r)

abbrev pub BothFit : Bytes × Bytes → Type 0
BothFit (label, value) = Fits label × Fits value

labelled_all-injective :
    (ps qs : List (Bytes × Bytes))
    → All BothFit ps
    → All BothFit qs
    → labelled_all ps ≡ labelled_all qs
    → ps ≡ qs
unfolding labelled_all labelled
labelled_all-injective [] [] a b e = refl
labelled_all-injective [] ((l, v) ∷ qs) a b e = absurd (
    not_framed l (framed v ++ labelled_all qs)
      (sym (append_assoc (framed l) (framed v) (labelled_all qs)) ∙ sym e))
labelled_all-injective ((l, v) ∷ ps) [] a b e = absurd (
    not_framed l (framed v ++ labelled_all ps)
      (sym (append_assoc (framed l) (framed v) (labelled_all ps)) ∙ e))
labelled_all-injective ((l, v) ∷ ps) ((m, w) ∷ qs) a b e =
    let whole : framed l ++ (framed v ++ labelled_all ps)
        ≡ framed m ++ (framed w ++ labelled_all qs) =
      sym (append_assoc (framed l) (framed v) (labelled_all ps))
      ∙ (e ∙ append_assoc (framed m) (framed w) (labelled_all qs)) in
    let (p, q) = framed-injective l m _ _ a.0.0 b.0.0 whole in
    let (r, t) = framed-injective v w _ _ a.0.1 b.0.1 q in
    let u = labelled_all-injective ps qs a.1 b.1 t in cc (p, r, u)

tag-injective : (tag c d : Bytes) → tag ++ c ≡ tag ++ d → c ≡ d
tag-injective tag c d e = (append-injective tag tag c d refl e).1

-- What `operation_id` and `instruction_payload_hash` hash determines what they are given, where each
-- component is shorter than 256 ^ 8 bytes: two operations have one body only if the exception, the
-- version and the payload digest agree, and two instructions only if they have the same labels with
-- the same values.
pub bodies-injective :
    (e v h e' v' h' : Bytes) (ps qs : List (Bytes × Bytes))
    → All Fits (e ∷ v ∷ h ∷ [])
    → All Fits (e' ∷ v' ∷ h' ∷ [])
    → All BothFit ps
    → All BothFit qs
    → ((operation_body e v h ≡ operation_body e' v' h') ↔ ((e ≡ e') × (v ≡ v') × (h ≡ h')))
      × ((instruction_body ps ≡ instruction_body qs) ↔ (ps ≡ qs))
unfolding operation_body instruction_body
bodies-injective e v h e' v' h' ps qs a b c d = (
  (
    λ k. parts (
        joined-injective (e ∷ v ∷ h ∷ []) (e' ∷ v' ∷ h' ∷ []) a b
          (tag-injective operation_domain_tag _ _ k)),
    λ (p, q, r). rw (p, q, r) refl,
  ),
  (
    λ k. labelled_all-injective ps qs c d (tag-injective instruction_domain_tag _ _ k),
    λ p. rw p refl,
  ),
)
  where
    parts : e ∷ v ∷ h ∷ [] ≡ e' ∷ v' ∷ h' ∷ [] → (e ≡ e') × (v ≡ v') × (h ≡ h')
    parts k = (cc (k), cc (k), cc (k))
