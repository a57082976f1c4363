-- ===== src/Operations/Claim.antt =====
-- operations/claim.py: the exclusive claim on open residuals. The identifiers of the rows that other
-- transactions hold are an argument; the correlation of a residual is left out.
use ledger_exception_control.Common.{
  ℕ, none, some, Option, Bool, List, [], ◌∷◌, ◌++◌, ◌≡◌, ◌&&◌, true, false, arith, refl, not,
  contains, map, Distinct, if◌then◌else◌, leb, Bool-cases, inl, inr, In, map-In, In-contains, ◌<◌,
}
use ledger_exception_control.Common.Int.{ℤ, pos, negsuc, ltb_ℤ, eq_ℤ}
use ledger_exception_control.Common.Gather.{append-Distinct}
use ledger_exception_control.Common.Select.{
  select_first, IsFirst, select_first-IsFirst, select_first-Distinct, select_first-In,
}
use ledger_exception_control.Control.{ExceptionClassification}

pub data ExceptionStatus : Type 0 where
  open_exception resolved : ExceptionStatus

-- The columns of `ExceptionRecord` that a claim reads.
pub record ExceptionRow : Type 0 where
  pub id : ℕ
  pub classification : ExceptionClassification
  pub status : ExceptionStatus
  pub created_at : ℤ

pub record ClaimedResidual : Type 0 where
  pub exception_id : ℕ
  pub classification : ExceptionClassification

pub record Claim : Type 0 where
  pub residuals : List ClaimedResidual
  pub requested : ℤ

abbrev pub is_open_exception : ExceptionStatus → Bool
is_open_exception ExceptionStatus.open_exception = true
is_open_exception ExceptionStatus.resolved = false

-- `status = 'open'`, of a row that `SKIP LOCKED` does not pass over.
abbrev pub is_claimable : List ℕ → ExceptionRow → Bool
is_claimable locked e = is_open_exception e.status && not (contains e.id locked)

-- `ORDER BY created_at, id`
unfoldable pub claim_le : ExceptionRow → ExceptionRow → Bool
claim_le a b =
    if eq_ℤ a.created_at b.created_at then leb a.id b.id else ltb_ℤ a.created_at b.created_at

abbrev pub exception_id : ExceptionRow → ℕ
exception_id e = e.id

abbrev pub claimed : ExceptionRow → ClaimedResidual
claimed e = record { exception_id = e.id; classification = e.classification }

abbrev pub natural : ℤ → ℕ
natural (pos n) = n
natural (negsuc n) = 0

-- `claim_residuals`, or `none` where it raises `ValueError`.
unfoldable pub claim_residuals : List ℕ → ℤ → List ExceptionRow → Option Claim
unfolding select_first claim_le
claim_residuals locked limit table =
    if ltb_ℤ limit (pos 1)
    then none
    else some (record {
      residuals = map claimed (select_first claim_le (is_claimable locked) (natural limit) table);
      requested = limit;
    })

-- `Claim.exception_ids`
abbrev pub ids_of : Option Claim → List ℕ
ids_of none = []
ids_of (some c) = map (λ (r : ClaimedResidual). r.exception_id) c.residuals

-- Workers that claim one after another, each in a transaction that is still open: what each of them
-- holds is locked for those that follow.
unfoldable pub run_claims : List ℕ → List ℤ → List ExceptionRow → List ℕ
unfolding claim_residuals
run_claims locked [] table = locked
run_claims locked (limit ∷ more) table =
    run_claims (ids_of (claim_residuals locked limit table) ++ locked) more table

map-claimed :
    (rows : List ExceptionRow)
    → map (λ (r : ClaimedResidual). r.exception_id) (map claimed rows) ≡ map exception_id rows
map-claimed [] = refl
map-claimed (e ∷ rows) = cc (map-claimed rows)

claimed-Distinct :
    (locked : List ℕ) (limit : ℤ) (table : List ExceptionRow)
    → Distinct (map exception_id table)
    → Distinct (ids_of (claim_residuals locked limit table))
unfolding claim_residuals
claimed-Distinct locked limit table d = elim (Bool-cases (ltb_ℤ limit (pos 1))) [
  | inl refused ↦ rw refused tt
  | inr accepted ↦
      rw (accepted, map-claimed (select_first claim_le (is_claimable locked) (natural limit) table))
        (select_first-Distinct claim_le (is_claimable locked) (natural limit) exception_id table d)
]

claimed-free :
    (locked : List ℕ) (limit : ℤ) (table : List ExceptionRow) (k : ℕ)
    → In k (ids_of (claim_residuals locked limit table))
    → contains k locked ≡ false
unfolding claim_residuals
claimed-free locked limit table k = elim (Bool-cases (ltb_ℤ limit (pos 1))) [
  | inl refused ↦ rw refused (λ m. elim m [ ])
  | inr accepted ↦
      let chosen = select_first claim_le (is_claimable locked) (natural limit) table in
      rw (accepted, map-claimed chosen)
        (λ m.
          let (e, n, eq) = map-In exception_id k chosen m in
          let (there, fit) =
            select_first-In claim_le (is_claimable locked) (natural limit) table e n in
          ground (arith, fit, eq))
]

-- However many workers claim residuals, one after another and each while the others hold theirs, no
-- residual is claimed twice, and none that was held before, given that no exception stands twice in
-- the table and none was held twice at the start.
pub run_claims-Distinct :
    (locked : List ℕ) (limits : List ℤ) (table : List ExceptionRow)
    → Distinct (map exception_id table)
    → Distinct locked
    → Distinct (run_claims locked limits table)
unfolding run_claims
run_claims-Distinct locked [] table d h = h
run_claims-Distinct locked (limit ∷ more) table d h =
    run_claims-Distinct (ids_of (claim_residuals locked limit table) ++ locked) more table d (
      append-Distinct (ids_of (claim_residuals locked limit table)) locked
        (claimed-Distinct locked limit table d) h
        (λ k m n. cc (claimed-free locked limit table k m, In-contains k locked n)))

claim_le_total : (a b : ExceptionRow) → claim_le a b ≡ false → claim_le b a ≡ true
unfolding claim_le
claim_le_total a b h = ground (arith, h)

claim_le_trans :
    (a b c : ExceptionRow) → claim_le a b ≡ true → claim_le b c ≡ true → claim_le a c ≡ true
unfolding claim_le
claim_le_trans a b c h k = ground (arith, h, k)

-- A claim of at least one residual gives open ones that no other transaction holds, at most as many
-- as were asked for, the oldest first; an open one that is free and not given is no older than any
-- that is, and then as many as were asked for are given.
pub claim_residuals-IsFirst :
    (locked : List ℕ) (limit : ℕ) (table : List ExceptionRow)
    → 0 < limit
    → (chosen : List ExceptionRow) × (claim_residuals locked (pos limit) table
        ≡ some (record { residuals = map claimed chosen; requested = pos limit }))
      × IsFirst claim_le (is_claimable locked) limit table chosen
unfolding claim_residuals
claim_residuals-IsFirst locked limit table h =
    let accepted : ltb_ℤ (pos limit) (pos 1) ≡ false = ground (arith, h) in
    (
      select_first claim_le (is_claimable locked) limit table,
      rw accepted refl,
      select_first-IsFirst claim_le claim_le_total claim_le_trans (is_claimable locked) limit table,
    )
