-- ===== src/Matching.antt =====
-- src/ledger_exception_control_plane/matching: which settlement lines match which ledger entries.
-- Amounts are whole numbers of ten-thousandths of the currency's unit: every column that holds one
-- admits at most four decimal places (db/base.py), and the differences taken here are exact.
pub mod Policy
pub mod Engine
pub mod Candidates
pub mod Tier
pub mod Unique
pub mod Ambiguous
pub mod Contest
pub mod Rounds
pub mod Kept
pub mod Outcome
pub mod Match
pub mod Precedence
pub mod Tests
