-- ===== src/Matching/Candidates.antt =====
-- The candidate graph of one rule: what the two dictionaries hold, where identifiers are distinct.
use mathlib.Core.List.{append-nil}
use ledger_exception_control.Common.{
  ℕ, ◌≡◌, refl, ◌≢◌, Option, some, List, [], ◌∷◌, keep, ◌==◌, arith, Distinct, contains, map, false,
  In, keep-append, ◌++◌, inl, inr, ap, In-map, sym, none,
}
use ledger_exception_control.Common.Gather.{gather, push, not-In}
use ledger_exception_control.Matching.Policy.{MatchRule, TolerancePolicy}
use ledger_exception_control.Matching.Engine.{
  CandidateLine, CandidateEntry, Candidate, candidate, eligible, claimants, options, candidates,
}

module _ (rule : MatchRule) (policy : TolerancePolicy) where
  abbrev pub claim : CandidateLine → CandidateEntry → Option Candidate
  claim = candidate rule policy

  pub claim-line_id :
      (l : CandidateLine) (e : CandidateEntry) (c : Candidate)
      → claim l e ≡ some c
      → (c.line_id ≡ l.id) × (c.entry ≡ e) × (eligible l e rule policy ≡ some c.absorbed_amount)
  unfolding candidate
  claim-line_id l e c h = ground arith

  -- Of one line's candidates all or none have an identifier.
  keep_self :
      (k : ℕ) (l : CandidateLine) (es : List CandidateEntry)
      → k ≡ l.id
      → keep (λ c. k == c.line_id) (gather (claim l) es) ≡ gather (claim l) es
  unfolding candidate
  keep_self k l [] h = refl
  keep_self k l (e ∷ es) h = ground (arith, keep_self k l es h)

  keep_other :
      (k : ℕ) (l : CandidateLine) (es : List CandidateEntry)
      → k ≢ l.id
      → keep (λ c. k == c.line_id) (gather (claim l) es) ≡ []
  unfolding candidate
  keep_other k l [] h = refl
  keep_other k l (e ∷ es) h = ground (arith, keep_other k l es h)

  options_absent :
      (k : ℕ) (ls : List CandidateLine) (es : List CandidateEntry)
      → contains k (map (λ l. l.id) ls) ≡ false
      → options (candidates ls es rule policy) k ≡ []
  unfolding options candidates
  options_absent k [] es h = refl
  options_absent k (l ∷ ls) es h =
      rw (keep-append (λ c. k == c.line_id) (gather (claim l) es))
        (rw (keep_other k l es (ground arith)) (options_absent k ls es (ground arith)))

  -- `candidates.get(line.id, [])` holds the candidates of that line.
  pub options-candidates :
      (l : CandidateLine) (ls : List CandidateLine) (es : List CandidateEntry)
      → Distinct (map (λ x. x.id) ls)
      → In l ls
      → options (candidates ls es rule policy) l.id ≡ gather (claim l) es
  unfolding options candidates
  options-candidates l [] es d m = elim m [ ]
  options-candidates l (x ∷ ls) es d (inl e) =
      rw (keep-append (λ c. l.id == c.line_id) (gather (claim x) es)) (
        rw (keep_self l.id x es (ap (λ y. y.id) e))
          (rw (options_absent l.id ls es (rw e d.0)) (cc (append-nil (gather (claim x) es)))))
  options-candidates l (x ∷ ls) es d (inr m) =
      rw (keep-append (λ c. l.id == c.line_id) (gather (claim x) es)) (
        rw
          (keep_other l.id x es
            (λ q. not-In x.id (map (λ y. y.id) ls) d.0 (rw (sym q) (In-map (λ y. y.id) l ls m))))
          (options-candidates l ls es d.1 m))

  -- Of one line's candidates at most one names the entry.
  keep_absent :
      (k : ℕ) (l : CandidateLine) (es : List CandidateEntry)
      → contains k (map (λ x. x.id) es) ≡ false
      → keep (λ c. k == c.entry.id) (gather (claim l) es) ≡ []
  unfolding candidate
  keep_absent k l [] h = refl
  keep_absent k l (x ∷ es) h = ground (arith, keep_absent k l es)

  keep_entry :
      (l : CandidateLine) (e : CandidateEntry) (es : List CandidateEntry)
      → Distinct (map (λ x. x.id) es)
      → In e es
      → keep (λ c. e.id == c.entry.id) (gather (claim l) es) ≡ push (claim l e) []
  unfolding candidate
  keep_entry l e [] d m = elim m [ ]
  keep_entry l e (x ∷ es) d (inl q) = rw q (ground (arith, keep_absent x.id l es d.0))
  keep_entry l e (x ∷ es) d (inr m) = ground (
    arith,
    keep_entry l e es d.1 m,
    not-In x.id (map (λ y. y.id) es) d.0,
    In-map (λ (y : CandidateEntry). y.id) e es m,
  )

  -- `claimants[entry.id]` holds one candidate for each line that the entry is eligible for.
  pub claimants-candidates :
      (e : CandidateEntry) (ls : List CandidateLine) (es : List CandidateEntry)
      → Distinct (map (λ x. x.id) es)
      → In e es
      → claimants (candidates ls es rule policy) e.id ≡ gather (λ l. claim l e) ls
  unfolding claimants candidates
  claimants-candidates e [] es d m = refl
  claimants-candidates e (l ∷ ls) es d m =
      rw (keep-append (λ c. e.id == c.entry.id) (gather (claim l) es)) (
        rw (keep_entry l e es d m) (
          rw (claimants-candidates e ls es d m)
            (push_append (claim l e) (gather (λ x. claim x e) ls))))
    where
      push_append : (o : Option Candidate) (cs : List Candidate) → push o [] ++ cs ≡ push o cs
      push_append none cs = refl
      push_append (some c) cs = refl
