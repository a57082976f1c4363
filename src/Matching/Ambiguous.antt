-- ===== src/Matching/Ambiguous.antt =====
-- The lines that one run of `_accept_mutually_unique` leaves ambiguous, and what they contest.
use ledger_exception_control.Common.{
  ℕ, ◌≡◌, refl, ◌⊎◌, inl, inr, none, List, [], ◌∷◌, map, In, arith, ◌≢◌, In-append_right,
  In-append_left, In-map,
}
use ledger_exception_control.Matching.Policy.{MatchRule, TolerancePolicy}
use ledger_exception_control.Matching.Engine.{
  decide_lines, decide_line, Candidate, CandidateLine, TierResult, options,
}
use ledger_exception_control.Matching.Tier.{accept_line, accept_options}

module _ (rule : MatchRule) (policy : TolerancePolicy) where
  decide_line-ambiguous :
      (cs : List Candidate) (line : CandidateLine) (os : List Candidate) (r : TierResult) (i : ℕ)
      → In i (decide_line rule cs line os r).ambiguous
      → In i r.ambiguous
        ⊎ ((i ≡ line.id) × (accept_options rule policy cs line os ≡ none) × (os ≢ []))
  unfolding decide_line
  decide_line-ambiguous cs line [] r i h = inl h
  decide_line-ambiguous cs line (c ∷ []) r i h = ground arith
  decide_line-ambiguous cs line (c ∷ d ∷ more) r i h = ground arith

  ambiguous-decide_line :
      (cs : List Candidate) (line : CandidateLine) (os : List Candidate) (r : TierResult)
      → accept_options rule policy cs line os ≡ none
      → os ≢ []
      → In line.id (decide_line rule cs line os r).ambiguous
        × ((c : Candidate) → In c os → In c.entry.id (decide_line rule cs line os r).contested)
  unfolding decide_line
  ambiguous-decide_line cs line [] r h n = absurd (n refl)
  ambiguous-decide_line cs line (c ∷ []) r h n = ground arith
  ambiguous-decide_line cs line (c ∷ d ∷ more) r h n = (
    inl refl,
    λ x m.
        In-append_left x.entry.id (map (λ o. o.entry.id) (c ∷ d ∷ more)) r.contested
          (In-map (λ o. o.entry.id) x (c ∷ d ∷ more) m),
  )

  decide_line-grows :
      (cs : List Candidate) (line : CandidateLine) (os : List Candidate) (r : TierResult) (i : ℕ)
      → (In i r.ambiguous → In i (decide_line rule cs line os r).ambiguous)
        × (In i r.contested → In i (decide_line rule cs line os r).contested)
  unfolding decide_line
  decide_line-grows cs line [] r i = (λ h. h, λ h. h)
  decide_line-grows cs line (c ∷ []) r i = ground arith
  decide_line-grows cs line (c ∷ d ∷ more) r i =
      (inr, In-append_right i (map (λ o. o.entry.id) (c ∷ d ∷ more)) r.contested)

  decide_lines-grows :
      (cs : List Candidate) (lines : List CandidateLine) (r : TierResult) (i : ℕ)
      → (In i r.ambiguous → In i (decide_lines rule cs lines r).ambiguous)
        × (In i r.contested → In i (decide_lines rule cs lines r).contested)
  unfolding decide_lines
  decide_lines-grows cs [] r i = (λ h. h, λ h. h)
  decide_lines-grows cs (line ∷ lines) r i =
      let (a, c) = decide_line-grows cs line (options cs line.id) r i in
      let (b, d) =
        decide_lines-grows cs lines (decide_line rule cs line (options cs line.id) r) i in
      (λ h. b (a h), λ h. d (c h))

  pub decide_lines-ambiguous :
      (cs : List Candidate) (lines : List CandidateLine) (r : TierResult) (i : ℕ)
      → In i (decide_lines rule cs lines r).ambiguous
      → In i r.ambiguous
        ⊎ ((line : CandidateLine) × In line lines
            × (i ≡ line.id)
            × (accept_line rule policy cs line ≡ none)
            × (options cs line.id ≢ []))
  unfolding decide_lines
  decide_lines-ambiguous cs [] r i h = inl h
  decide_lines-ambiguous cs (x ∷ lines) r i h =
      elim (decide_lines-ambiguous cs lines (decide_line rule cs x (options cs x.id) r) i h) [
        | inl before ↦ elim (decide_line-ambiguous cs x (options cs x.id) r i before) [
          | inl old ↦ inl old
          | inr (e, n, o) ↦ inr (x, inl refl, e, n, o)
        ]
        | inr (line, m, e, n, o) ↦ inr (line, inr m, e, n, o)
      ]

  pub ambiguous-decide_lines :
      (cs : List Candidate) (lines : List CandidateLine) (r : TierResult) (line : CandidateLine)
      → In line lines
      → accept_line rule policy cs line ≡ none
      → options cs line.id ≢ []
      → In line.id (decide_lines rule cs lines r).ambiguous
        × ((c : Candidate)
            → In c (options cs line.id)
            → In c.entry.id (decide_lines rule cs lines r).contested)
  unfolding decide_lines
  ambiguous-decide_lines cs [] r line m n o = elim m [ ]
  ambiguous-decide_lines cs (x ∷ lines) r line (inr m) n o =
      ambiguous-decide_lines cs lines (decide_line rule cs x (options cs x.id) r) line m n o
  ambiguous-decide_lines cs (x ∷ lines) r line (inl e) n o =
      let r' = decide_line rule cs x (options cs x.id) r in
      let (a, c) = ambiguous-decide_line cs x (options cs x.id) r (rw e at n) (rw e at o) in
      (
        rw e ((decide_lines-grows cs lines r' x.id).0 a),
        λ k m. (decide_lines-grows cs lines r' k.entry.id).1 (c k (rw e at m)),
      )
