-- ===== src/Payouts.antt =====
-- Payouts: the ledger of payouts and the service over it (src/payouts/).
pub mod Ledger
pub mod Service
pub mod Exclusive
pub mod AtMostOnce
pub mod Refused
