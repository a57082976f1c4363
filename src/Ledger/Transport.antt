-- ===== src/Ledger/Transport.antt =====
-- ledger/transport.py: what an exception says about whether anything reached the ledger.
use ledger_exception_control.Common.{
  Bool, List, Option, true, none, ◌∷◌, some, [], false, if◌then◌else◌,
}
use ledger_exception_control.Common.Text.{Text}

pub data RetryableCause : Type 0 where
  dns_resolution tcp_connect tls_handshake connect_timeout : RetryableCause

pub data TransportClass : Type 0 where
  not_sent unknown : TransportClass

pub record TransportVerdict : Type 0 where
  pub classification : TransportClass
  pub cause : Option RetryableCause
  pub detail : Text

pub data VerdictError : Type 0 where
  not_sent_without_cause unknown_with_cause : VerdictError

abbrev pub verdict_error : TransportClass → Option RetryableCause → Option VerdictError
verdict_error TransportClass.not_sent none = some not_sent_without_cause
verdict_error TransportClass.not_sent (some cause) = none
verdict_error TransportClass.unknown none = none
verdict_error TransportClass.unknown (some cause) = some unknown_with_cause

-- `TransportVerdict.__post_init__`: the error that construction raises, if any.
unfoldable pub post_init : TransportVerdict → Option VerdictError
post_init v = verdict_error v.classification v.cause

abbrev is_not_sent : TransportClass → Bool
is_not_sent TransportClass.not_sent = true
is_not_sent TransportClass.unknown = false

unfoldable pub retryable : TransportVerdict → Bool
retryable v = is_not_sent v.classification

-- The exception types of `_UNAMBIGUOUS`.
pub data ExceptionType : Type 0 where
  gaierror connection_refused_error : ExceptionType

-- A raised exception: the name of its class, the cause if it is a `LedgerTransportError`, and
-- whether it is an instance of each of the listed types.
pub record RaisedError : Type 0 where
  pub class_name : Text
  pub declared : Option RetryableCause
  pub is_gaierror : Bool
  pub is_connection_refused_error : Bool

abbrev pub is_instance : RaisedError → ExceptionType → Bool
is_instance error gaierror = error.is_gaierror
is_instance error connection_refused_error = error.is_connection_refused_error

abbrev pub unambiguous : List (ExceptionType × RetryableCause)
unambiguous = (gaierror, dns_resolution) ∷ (connection_refused_error, tcp_connect) ∷ []

-- The loop over `_UNAMBIGUOUS`, and what follows it.
unfoldable pub scan : RaisedError → List (ExceptionType × RetryableCause) → TransportVerdict
scan error [] = record {
  classification = TransportClass.unknown;
  cause = none;
  detail = error.class_name;
}
scan error ((exception_type, cause) ∷ more) =
    let rest = scan error more in
    if is_instance error exception_type
    then (record {
      classification = TransportClass.not_sent;
      cause = some cause;
      detail = error.class_name;
    })
    else rest

abbrev pub classify_declared :
    RaisedError → Option RetryableCause → TransportVerdict → TransportVerdict
classify_declared error none otherwise = otherwise
classify_declared error (some cause) otherwise = record {
  classification = TransportClass.not_sent;
  cause = some cause;
  detail = error.class_name;
}

unfoldable pub classify_transport_failure : RaisedError → TransportVerdict
unfolding scan
classify_transport_failure error = classify_declared error error.declared (scan error unambiguous)
