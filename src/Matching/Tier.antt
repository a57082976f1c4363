-- ===== src/Matching/Tier.antt =====
-- One run of `_accept_mutually_unique`, against a description by mutual uniqueness.
use ledger_exception_control.Common.{
  ℕ, ◌≡◌, refl, sym, ap, ◌∙◌, ◌⊎◌, inl, inr, Option, none, some, List, [], ◌∷◌, ◌++◌, map, length,
  In, Distinct, arith, ◌==◌, if◌then◌else◌,
}
use ledger_exception_control.Matching.Policy.{MatchRule, TolerancePolicy}
use ledger_exception_control.Common.Gather.{push, gather, gather-one}
use ledger_exception_control.Matching.Engine.{
  decide_lines, decide_line, Candidate, CandidateLine, ProposedMatch, CandidateEntry, TierResult,
  claimants, candidates, propose, eligible, candidate, options,
}
use ledger_exception_control.Matching.Candidates.{options-candidates, claim, claimants-candidates}
use mathlib.Core.List.{append-nil, append_assoc}

push_append :
    {B : Type 0} (xs : List B) (o : Option B) (ys : List B)
    → (xs ++ push o []) ++ ys ≡ xs ++ push o ys
push_append xs none ys = rw append-nil
push_append xs (some y) ys = append_assoc xs (y ∷ []) ys

abbrev pub found : CandidateLine → CandidateEntry → ℕ → Candidate
found line entry a = record { line_id = line.id; entry = entry; absorbed_amount = a }

module _ (rule : MatchRule) (policy : TolerancePolicy) where
  -- What the second loop accepts for a line, with its options at hand.
  abbrev pub accept_options : List Candidate → CandidateLine → List Candidate → Option ProposedMatch
  accept_options cs line [] = none
  accept_options cs line (c ∷ []) =
      if length (claimants cs c.entry.id) == 1 then some (propose rule line c) else none
  accept_options cs line (c ∷ d ∷ more) = none

  abbrev pub accept_line : List Candidate → CandidateLine → Option ProposedMatch
  accept_line cs line = accept_options cs line (options cs line.id)

  decide_line-accepted :
      (cs : List Candidate) (line : CandidateLine) (os : List Candidate) (r : TierResult)
      → (decide_line rule cs line os r).accepted ≡ r.accepted ++ push (accept_options cs line os) []
  unfolding decide_line
  decide_line-accepted cs line [] r = sym (append-nil r.accepted)
  decide_line-accepted cs line (c ∷ []) r = ground (arith, append-nil r.accepted)
  decide_line-accepted cs line (c ∷ d ∷ more) r = sym (append-nil r.accepted)

  -- The loop accepts line by line.
  pub decide_lines-accepted :
      (cs : List Candidate) (lines : List CandidateLine) (r : TierResult)
      → (decide_lines rule cs lines r).accepted ≡ r.accepted ++ gather (accept_line cs) lines
  unfolding decide_lines
  decide_lines-accepted cs [] r = sym (append-nil r.accepted)
  decide_lines-accepted cs (line ∷ lines) r =
      decide_lines-accepted cs lines (decide_line rule cs line (options cs line.id) r)
      ∙ ap (λ ms. ms ++ gather (accept_line cs) lines)
          (decide_line-accepted cs line (options cs line.id) r)
      ∙ push_append r.accepted (accept_line cs line) (gather (accept_line cs) lines)

  -- An accepted line has one option, and that entry one claimant.
  pub accept_line-some :
      (cs : List Candidate) (line : CandidateLine) (os : List Candidate) (m : ProposedMatch)
      → accept_options cs line os ≡ some m
      → (c : Candidate) × (os ≡ c ∷ [])
        × (length (claimants cs c.entry.id) ≡ 1)
        × (m ≡ propose rule line c)
  accept_line-some cs line [] m h = absurd (cc)
  accept_line-some cs line (c ∷ []) m h = (c, refl, ground arith, ground arith)
  accept_line-some cs line (c ∷ d ∷ more) m h = absurd (cc)

  module _ (lines : List CandidateLine) (entries : List CandidateEntry) where
    -- A pair that is the only choice from both sides.
    pub record MutuallyUnique (line : CandidateLine) (entry : CandidateEntry) (a : ℕ) : Type 0 where
      pub line_in : In line lines
      pub entry_in : In entry entries
      pub admits : eligible line entry rule policy ≡ some a
      pub only_entry :
          (e : CandidateEntry)
          → In e entries
          → (eligible line e rule policy ≡ none) ⊎ (e.id ≡ entry.id)
      pub only_line :
          (l : CandidateLine)
          → In l lines
          → (eligible l entry rule policy ≡ none) ⊎ (l.id ≡ line.id)

    pub claim_of_eligible :
        (l : CandidateLine) (e : CandidateEntry) (a : ℕ)
        → eligible l e rule policy ≡ some a
        → claim rule policy l e ≡ some (found l e a)
    unfolding candidate
    claim_of_eligible l e a h = ground arith

    claim_none :
        (l : CandidateLine) (e : CandidateEntry)
        → eligible l e rule policy ≡ none
        → claim rule policy l e ≡ none
    unfolding candidate
    claim_none l e h = ground arith

    module _ (lines_distinct : Distinct (map (λ l. l.id) lines))
        (entries_distinct : Distinct (map (λ e. e.id) entries)) where
      pub accept_line-MutuallyUnique :
          (line : CandidateLine) (entry : CandidateEntry) (a : ℕ)
          → MutuallyUnique line entry a
          → accept_line (candidates lines entries rule policy) line
            ≡ some (propose rule line (found line entry a))
      accept_line-MutuallyUnique line entry a u = rw (one_option, one_claimant) refl
        where
          one_option :
              options (candidates lines entries rule policy) line.id ≡ found line entry a ∷ []
          one_option =
              options-candidates rule policy line lines entries lines_distinct u.line_in
              ∙ gather-one (λ e. e.id) (claim rule policy line) entry (found line entry a) entries
                  entries_distinct u.entry_in (claim_of_eligible line entry a u.admits)
                  (λ e m. elim (u.only_entry e m) [
                    | inl n ↦ inl (claim_none line e n)
                    | inr q ↦ inr q
                  ])

          one_claimant :
              claimants (candidates lines entries rule policy) entry.id ≡ found line entry a ∷ []
          one_claimant =
              claimants-candidates rule policy entry lines entries entries_distinct u.entry_in
              ∙ gather-one (λ l. l.id) (λ l. claim rule policy l entry) line (found line entry a)
                  lines lines_distinct u.line_in (claim_of_eligible line entry a u.admits)
                  (λ l m. elim (u.only_line l m) [
                    | inl n ↦ inl (claim_none l entry n)
                    | inr q ↦ inr q
                  ])
