-- ===== src/Ledger/Tests.antt =====
-- Runs of the simulated ledgers, the capabilities in effect and the classifier.
use ledger_exception_control.Common.{none, some, ◌∷◌, [], ◌≡◌, ◌≤◌, refl, false, true}
use ledger_exception_control.Ledger.Simulated.{
  new_ledger, applied_count, SimulatedLedger, posting_of,
}
use ledger_exception_control.Ledger.Transport.{RaisedError}
use ledger_exception_control.Ledger.Suppression.{run, Request, run-applied_once}
use ledger_exception_control.Common.Text.{Text, codes}
use ledger_exception_control.Ledger.Port.{PostingInstruction, VerifiedCapabilities, PostingOutcome}
use ledger_exception_control.Common.Dict.{get, count_of, put}
use ledger_exception_control.Money.Decimal.{finite}
use ledger_exception_control.Common.Int.{pos}

abbrev instruction_of_one : PostingInstruction
instruction_of_one = record {
  adjustment_id = 1;
  amount = finite false (1 ∷ []) (pos 0);
  currency = codes "EUR";
  account_code = codes "4900";
  period = codes "2026-03";
}

abbrev a_request : Request
a_request = record { operation_id = codes "op"; instruction = instruction_of_one; injected = none }

-- The responder loses the answer.
abbrev a_lost_answer : Request
a_lost_answer = record {
  operation_id = codes "op";
  instruction = instruction_of_one;
  injected = some (PostingOutcome.unknown (codes "lost"));
}

abbrev same_digits : Text → Text
same_digits operation_id = operation_id

run-applied_once_example :
    applied_count
      (run same_digits new_ledger (a_lost_answer ∷ a_request ∷ a_request ∷ []))
      (codes "op")
    ≤ 1
run-applied_once_example =
    run-applied_once same_digits (a_lost_answer ∷ a_request ∷ a_request ∷ []) (codes "op")

abbrev once : SimulatedLedger
once = record {
  applied = (codes "op", posting_of same_digits (codes "op") instruction_of_one) ∷ [];
  application_count = (codes "op", 1) ∷ [];
  posts_received = 1;
  receipt_count = (codes "op", 1) ∷ [];
}

once-run : run same_digits new_ledger (a_request ∷ []) ≡ once
unfolding run get put count_of
once-run = refl

once_kept :
    get once.applied (codes "op") ≡ some (posting_of same_digits (codes "op") instruction_of_one)
unfolding get
once_kept = refl

abbrev proven : VerifiedCapabilities
proven = record { adapter_name = codes "sim"; suppression_proven = true; query_proven = false }

abbrev refused_connection : RaisedError
refused_connection = record {
  class_name = codes "ConnectionRefusedError";
  declared = none;
  is_gaierror = false;
  is_connection_refused_error = true;
}
