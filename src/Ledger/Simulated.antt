-- ===== src/Ledger/Simulated.antt =====
-- ledger/simulated.py: three ledgers in memory. The answer of an injected responder is an argument
-- of the call that asks it, `none` where there is no responder or it falls through; the digits of
-- `uuid.uuid5` and the random digits of `uuid.uuid4` are parameters.
use ledger_exception_control.Common.{none, ℕ, [], Option, ◌+◌, suc, some, ◌∷◌, ◌++◌, zero}
use ledger_exception_control.Common.Dict.{Dict, get, put, count_of}
use ledger_exception_control.Ledger.Port.{PostingOutcome, PostingInstruction, QueryOutcome}
use ledger_exception_control.Common.Text.{Text, codes}
use ledger_exception_control.Money.Decimal.{Decimal}

pub record AppliedPosting : Type 0 where
  pub operation_id : Text
  pub posting_ref : Text
  pub amount : Decimal
  pub currency : Text
  pub account_code : Text
  pub period : Text

-- The attributes of a `SimulatedLedger` that its operations change.
pub record SimulatedLedger : Type 0 where
  pub applied : Dict AppliedPosting
  pub application_count : Dict ℕ
  pub posts_received : ℕ
  pub receipt_count : Dict ℕ

abbrev pub new_ledger : SimulatedLedger
new_ledger = record { applied = []; application_count = []; posts_received = 0; receipt_count = [] }

-- `s[:n]`
abbrev pub prefix : ℕ → Text → Text
prefix zero s = []
prefix (suc n) [] = []
prefix (suc n) (c ∷ s) = c ∷ prefix n s

-- `f"SIM-{uuid.uuid5(uuid.NAMESPACE_OID, operation_id).hex[:16]}"`
abbrev pub reference : (Text → Text) → Text → Text
reference uuid5_hex operation_id = codes "SIM-" ++ prefix 16 (uuid5_hex operation_id)

-- The two counters that every post moves, whatever comes of it.
unfoldable pub receive : SimulatedLedger → Text → SimulatedLedger
receive s operation_id = record s {
  posts_received = s.posts_received + 1;
  receipt_count = put s.receipt_count operation_id (count_of s.receipt_count operation_id + 1);
}

abbrev pub posting_of : (Text → Text) → Text → PostingInstruction → AppliedPosting
posting_of uuid5_hex operation_id instruction = record {
  operation_id = operation_id;
  posting_ref = reference uuid5_hex operation_id;
  amount = instruction.amount;
  currency = instruction.currency;
  account_code = instruction.account_code;
  period = instruction.period;
}

-- What is left where nothing is applied yet and no responder answered.
unfoldable pub apply_posting :
    (Text → Text) → SimulatedLedger → Text → PostingInstruction → SimulatedLedger
apply_posting uuid5_hex s operation_id instruction = record s {
  application_count =
      put s.application_count operation_id (count_of s.application_count operation_id + 1);
  applied = put s.applied operation_id (posting_of uuid5_hex operation_id instruction);
}

-- The three ways on, by `existing` and `injected`.
unfoldable pub answer :
    (Text → Text)
    → SimulatedLedger
    → Text
    → PostingInstruction
    → Option AppliedPosting
    → Option PostingOutcome
    → PostingOutcome × SimulatedLedger
unfolding apply_posting
answer uuid5_hex s operation_id instruction (some existing) injected =
    (PostingOutcome.confirmed existing.posting_ref, s)
answer uuid5_hex s operation_id instruction none (some outcome) = (outcome, s)
answer uuid5_hex s operation_id instruction none none = (
  PostingOutcome.confirmed (reference uuid5_hex operation_id),
  apply_posting uuid5_hex s operation_id instruction,
)

-- `SimulatedLedger.post`
unfoldable pub post :
    (Text → Text)
    → SimulatedLedger
    → Text
    → PostingInstruction
    → Option PostingOutcome
    → PostingOutcome × SimulatedLedger
unfolding receive answer
post uuid5_hex s operation_id instruction injected =
    answer uuid5_hex (receive s operation_id) operation_id instruction (get s.applied operation_id)
      injected

unfoldable pub applied_count : SimulatedLedger → Text → ℕ
applied_count s operation_id = count_of s.application_count operation_id

unfoldable pub posts_received_for : SimulatedLedger → Text → ℕ
posts_received_for s operation_id = count_of s.receipt_count operation_id

abbrev pub found_or_not : Option AppliedPosting → QueryOutcome
found_or_not none = QueryOutcome.not_found
found_or_not (some a) = QueryOutcome.found a.posting_ref

abbrev pub query_answer : Option QueryOutcome → QueryOutcome → QueryOutcome
query_answer none honest = honest
query_answer (some injected) honest = injected

-- `SimulatedLedger.get_by_operation_id`
unfoldable pub get_by_operation_id : SimulatedLedger → Text → Option QueryOutcome → QueryOutcome
get_by_operation_id s operation_id injected =
    query_answer injected (found_or_not (get s.applied operation_id))

-- `NonIdempotentLedger`, and its `post`.
pub record NonIdempotentLedger : Type 0 where
  pub applications : Dict ℕ
  pub posts_received : ℕ

abbrev pub outcome_or : Option PostingOutcome → Text → PostingOutcome
outcome_or none posting_ref = PostingOutcome.confirmed posting_ref
outcome_or (some injected) posting_ref = injected

unfoldable pub weak_post :
    Text
    → NonIdempotentLedger
    → Text
    → PostingInstruction
    → Option PostingOutcome
    → PostingOutcome × NonIdempotentLedger
weak_post uuid4_hex s operation_id instruction injected = (
  outcome_or injected (codes "NON-" ++ prefix 16 uuid4_hex),
  record {
    applications = put s.applications operation_id (count_of s.applications operation_id + 1);
    posts_received = s.posts_received + 1;
  },
)
