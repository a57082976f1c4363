-- ===== src/Lib.antt =====
-- The ledger exception control plane: ingestion, matching, classification, the money path, the ledger
-- port, and the operations that send an adjustment, retry it, reconcile it and hand it to a person.
--
-- The program reads a settlement file, matches its lines with the entries of an internal ledger,
-- classifies the lines that are left, prices the treatment that a person approved for one, and
-- posts the adjustment to a ledger exactly as far as the ledger's proven capabilities allow. The
-- parts that decide are pure functions, and they are what is modelled here:
--
--   Ingest          src/ledger_exception_control_plane/ingest/errors.py (Defect), parser.py (Parser),
--                   normalise.py (the readings in Normalise, `normalise` and
--                   `_normalise_presentment` in Row) and service.py (Payload: `interpret`;
--                   Service: `ingest` with its two transactions record_receipt and settle; Runs:
--                   deliveries whose transactions interleave). The paths that follow are in that
--                   folder's parent.
--   Matching        matching/policy.py and engine.py: `match` is match_lines,
--                   `_accept_mutually_unique` is accept_mutually_unique, `_eligible` is eligible.
--                   Policy and Engine hold the definitions; the other files prove.
--   Classification  classification/taxonomy.py and engine.py: `classify`, `_relate` is relate, the
--                   three rules under their own names with `_rule`.
--   Money           money/policy.py, money/calculator.py and the decimal contract of db/base.py:
--                   `compute_adjustment`, `account_policy`, `within_money_scale`.
--   Ledger          ledger/port.py (the capability record, `effective_capabilities`),
--                   ledger/transport.py (`classify_transport_failure`) and ledger/simulated.py
--                   (`SimulatedLedger` and `NonIdempotentLedger`).
--   Operations      operations/dispatcher.py, retry.py, reconcile.py, recovery.py, approval.py,
--                   claim.py and identity.py, on the rows of db/control.py that concern one
--                   adjustment (Rows). Each part has its definitions in the file of its name and
--                   its theorems below:
--                   Dispatch, with the re-send branch in Resend: the three transactions of
--                   `dispatch_once` are gate, write_ahead and record_outcome. Retry: `attempt_one`,
--                   with the turns at one operation in Passes, and the backoff curve in Backoff.
--                   Queue: `due_adjustments`, `run_due_once` and the listings of recovery items.
--                   Claim: `claim_residuals`. Replay: `replay_dead_letter`. Reconcile and its Pass:
--                   `reconcile_once`. Recovery: `open_item` and `resolve_item`, with the roles of
--                   security.py. Approval: `record_decision`. Identity: the bytes that are
--                   hashed, and `canonical_amount` in its Amount. Steps: the operations as a step
--                   relation; what every write preserves, they preserve. What the adapter answers,
--                   its capabilities in effect, the delay that is drawn and the identifiers of new
--                   rows are arguments.
--   Control         the closed vocabularies of db/control.py.
--   Common          texts as lists of code points, integers, dates with their ordinals, sorting by a
--                   key, dictionaries, and the lemmas on lists that the parts share.
--
-- The identifiers are numbers: a UUID is compared as its sixteen bytes are, so that sorting by it
-- and equality are those of the numbers. Amounts of matching and classification are whole
-- ten-thousandths, as the database column holds them; the money path, which checks that very
-- contract, has `decimal.Decimal` as `as_tuple` gives it. Durations are whole microseconds. Sets of
-- identifiers are lists; the order of `ambiguous_line_ids`, a set in Python, carries no meaning.
-- A call of an injected responder is an argument of the post that makes it, so that statements on
-- runs hold of every responder. All recursion is structural; only the digits of a number take fuel,
-- the number itself, which is enough: what is written is read back as the number.
--
-- Not modelled: the database sessions around the decisions (the services of matching and
-- classification), the web interface, the language model calls, telemetry, fixtures and the
-- frontend; the digest and the other texts that the operation identity hashes. The database is
-- taken to run each transaction as a whole, and nothing else to write between the transactions of
-- one operation; of an audit event the scope and the correlation are left out. Floats are a
-- parameter of Backoff, with the documented behaviour of the conversions and of `random.uniform` as
-- hypotheses. The functions of the standard library that read UTF-8 and CSV are arguments of the
-- parser, and the digest one of the deliveries, with the hypothesis that no two payloads have one
-- digest.
pub mod Common
pub mod Control
pub mod Matching
pub mod Classification
pub mod Money
pub mod Ledger
pub mod Operations
pub mod Ingest
