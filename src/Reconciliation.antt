-- ===== src/Reconciliation.antt =====
-- The job that reconciles open payouts and pay-ins (src/reconciliation/).
pub mod Service
pub mod Total
pub mod Covers
pub mod Complete
