-- ===== src/Money.antt =====
-- src/ledger_exception_control_plane/money, with the decimal contract of db/base.py: the amount,
-- the account and the period of an approved treatment, or the reason why there is none.
pub mod Decimal
pub mod Policy
pub mod Calculator
pub mod Scale
pub mod Pricing
pub mod Complete
pub mod Tests
