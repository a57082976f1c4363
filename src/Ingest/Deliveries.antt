-- ===== src/Ingest/Deliveries.antt =====
-- ingest/service.py: what any sequence of deliveries, their two transactions interleaved as they may
-- be, reports and leaves behind.
use ledger_exception_control.Common.{
  ℕ, none, some, Option, List, [], ◌∷◌, ◌≡◌, true, false, refl, all, map, length, Distinct, All,
  Bool, sym, ◌∙◌, if◌then◌else◌, ◌++◌, All-append,
}
use ledger_exception_control.Common.Text.{Text}
use ledger_exception_control.Ingest.Defect.{Defect}
use ledger_exception_control.Ingest.Reason.{render_reason-bounded, is_renderable}
use ledger_exception_control.Ingest.Parser.{FileReader}
use ledger_exception_control.Ingest.Normalise.{NormalisedLine}
use ledger_exception_control.Ingest.Service.{
  BatchStatus, SettlementLine, persisted, is_received, IngestOutcome, SettlementBatch, find_batch,
  finish, finished, settle, commit_outcome, outcome_of, new_batch,
}
use ledger_exception_control.Ingest.Payload.{interpret}
use ledger_exception_control.Ingest.Interpretation.{interpret_total}
use ledger_exception_control.Ingest.Batches.{
  Holds, batch_id, find_batch-All, finish-All, finish-ids, finish-Holds, append-Distinct_ids,
}
use mathlib.Core.Path.{subst}
use ledger_exception_control.Common.Int.{ℤ}
use ledger_exception_control.Ingest.Verdicts.{verdict-parsed, verdict, verdict-quarantined}

module _ (reader : FileReader) (digest : List ℕ → Text) where
  abbrev pub IsJudged : BatchStatus → Option Text → List SettlementLine → List ℕ → Type 0
  IsJudged BatchStatus.received reason lines payload = (reason ≡ none) × (lines ≡ [])
  IsJudged status reason lines payload =
      verdict reader payload ≡ some (record { status = status; reason = reason; lines = lines })

  judged-closed :
      (status : BatchStatus) (reason : Option Text) (lines : List SettlementLine) (payload : List ℕ)
      → is_received status ≡ false
      → verdict reader payload ≡ some (record { status = status; reason = reason; lines = lines })
      → IsJudged status reason lines payload
  judged-closed BatchStatus.received reason lines payload h v = absurd (cc (h))
  judged-closed BatchStatus.parsed reason lines payload h v = v
  judged-closed BatchStatus.quarantined reason lines payload h v = v

  closed-judged :
      (status : BatchStatus) (reason : Option Text) (lines : List SettlementLine) (payload : List ℕ)
      → is_received status ≡ false
      → IsJudged status reason lines payload
      → verdict reader payload ≡ some (record { status = status; reason = reason; lines = lines })
  closed-judged BatchStatus.received reason lines payload h v = absurd (cc (h))
  closed-judged BatchStatus.parsed reason lines payload h v = v
  closed-judged BatchStatus.quarantined reason lines payload h v = v

  open-judged :
      (status : BatchStatus) (reason : Option Text) (lines : List SettlementLine) (payload : List ℕ)
      → status ≡ BatchStatus.received
      → IsJudged status reason lines payload
      → lines ≡ []
  open-judged BatchStatus.received reason lines payload h v = v.1
  open-judged BatchStatus.parsed reason lines payload h v = absurd (cc (h))
  open-judged BatchStatus.quarantined reason lines payload h v = absurd (cc (h))

  -- A batch carries the digest of its payload, and nothing yet or the payload's verdict.
  pub record IsIntact (b : SettlementBatch) : Type 0 where
    pub hashed : b.content_hash ≡ digest b.raw_payload
    pub judged : IsJudged b.status b.quarantine_reason b.lines b.raw_payload

  -- A report restates the verdict of the payload, with the number of its lines.
  abbrev pub Agrees : List ℕ → IngestOutcome → Type 0
  Agrees payload o =
      (lines : List SettlementLine) × (verdict reader payload
        ≡ some (record { status = o.status; reason = o.quarantine_reason; lines = lines }))
      × (o.line_count ≡ length lines)

  -- The batches of the table: each is intact, and no two have one identifier.
  pub record AreIntact (bs : List SettlementBatch) : Type 0 where
    pub intact : All IsIntact bs
    pub apart : Distinct (map batch_id bs)

  pub append-AreIntact :
      (i : ℕ) (payload : List ℕ) (source : Text) (at : ℤ) (bs : List SettlementBatch)
      → AreIntact bs
      → find_batch i bs ≡ none
      → AreIntact (bs ++ new_batch i (digest payload) payload source at ∷ [])
  append-AreIntact i payload source at bs v fresh =
      let b = new_batch i (digest payload) payload source at in
      record {
        intact =
            All-append IsIntact bs (b ∷ []) v.intact
              (record { hashed = refl; judged = (refl, refl) }, tt);
        apart = append-Distinct_ids bs b fresh v.apart;
      }

  -- What a settlement of a payload makes of the table.
  abbrev Settles :
      List ℕ → List SettlementBatch → Option (List SettlementBatch × IngestOutcome) → Type 0
  Settles payload bs r =
      (bs' : List SettlementBatch) × (o : IngestOutcome) × (r ≡ some (bs', o))
      × AreIntact bs'
      × ((j : ℕ) (h : Text) → Holds j h bs → Holds j h bs')
      × Agrees payload o

  module _ (injective : (p q : List ℕ) → digest p ≡ digest q → p ≡ q) where
    finished-Settles :
        (i : ℕ) (payload : List ℕ) (duplicate : Bool) (bs : List SettlementBatch)
        (b : SettlementBatch) (status : BatchStatus) (reason : Option Text)
        (lines : List SettlementLine)
        → AreIntact bs
        → find_batch i bs ≡ some b
        → b.content_hash ≡ digest payload
        → b.lines ≡ []
        → is_received status ≡ false
        → verdict reader payload ≡ some (record { status = status; reason = reason; lines = lines })
        → Settles payload bs (some (finished i bs status reason lines duplicate))
    finished-Settles i payload duplicate bs b status reason lines v e h l s j =
        let old = find_batch-All IsIntact i bs b v.intact e in
        let same : b.raw_payload ≡ payload = injective b.raw_payload payload (sym old.hashed ∙ h) in
        (
          map (finish i status reason lines) bs,
          _,
          refl,
          record {
            intact = finish-All i status reason lines IsIntact b bs v.apart v.intact e (record {
              hashed = old.hashed;
              judged = rw (l, same) (judged-closed status reason lines payload s j);
            });
            apart = subst Distinct (sym (finish-ids i status reason lines bs)) v.apart;
          },
          (λ n t x. finish-Holds i status reason lines n t bs x),
          (lines, j, refl),
        )

    -- A settlement of a payload, at the batch that holds its content, always comes to an end, keeps
    -- the table intact and reports the verdict.
    pub settle-Settles :
        (i : ℕ) (payload : List ℕ) (duplicate : Bool) (bs : List SettlementBatch)
        → AreIntact bs
        → Holds i (digest payload) bs
        → Settles payload bs (settle reader i payload duplicate bs)
    unfolding settle
    settle-Settles i payload duplicate bs v (b, e, h) =
        let (lines, defects, r, kind, storable, rising, clean) = interpret_total reader payload in
        rw (r, e) (go lines defects r clean b.status refl)
      where
        old : IsIntact b
        old = find_batch-All IsIntact i bs b v.intact e

        commit :
            (lines : List NormalisedLine) (defects : List Defect)
            → interpret reader payload ≡ some (lines, defects)
            → all is_renderable defects ≡ true
            → b.lines ≡ []
            → Settles payload bs (commit_outcome i bs duplicate (lines, defects))
        commit lines [] r clean l =
            finished-Settles i payload duplicate bs b BatchStatus.parsed none (map persisted lines)
              v e h l refl (verdict-parsed reader payload lines r)
        commit lines (d ∷ ds) r clean l =
            let (reason, k, bound, allowed) = render_reason-bounded (d ∷ ds) (cc) clean in
            rw k (
              finished-Settles i payload duplicate bs b BatchStatus.quarantined (some reason) [] v e
                h l refl (verdict-quarantined reader payload lines d ds reason r k))

        stands :
            (status : BatchStatus)
            → b.status ≡ status
            → is_received status ≡ false
            → Settles payload bs (some (bs, outcome_of b true))
        stands status k n =
            let same : b.raw_payload ≡ payload =
              injective b.raw_payload payload (sym old.hashed ∙ h) in
            (
              bs,
              outcome_of b true,
              refl,
              v,
              (λ j t x. x),
              (
                b.lines,
                subst
                    (λ (p : List ℕ).
                      verdict reader p
                      ≡ some (record {
                        status = b.status;
                        reason = b.quarantine_reason;
                        lines = b.lines;
                      }))
                    same
                    (closed-judged b.status b.quarantine_reason b.lines b.raw_payload (rw k n)
                      old.judged),
                refl,
              ),
            )

        go :
            (lines : List NormalisedLine) (defects : List Defect)
            → interpret reader payload ≡ some (lines, defects)
            → all is_renderable defects ≡ true
            → (status : BatchStatus) → b.status ≡ status
            → Settles payload bs (
                if is_received status
                then commit_outcome i bs duplicate (lines, defects)
                else some (bs, outcome_of b true))
        go lines defects r clean BatchStatus.received k =
            commit lines defects r clean
              (open-judged b.status b.quarantine_reason b.lines b.raw_payload k old.judged)
        go lines defects r clean BatchStatus.parsed k = stands BatchStatus.parsed k refl
        go lines defects r clean BatchStatus.quarantined k = stands BatchStatus.quarantined k refl
