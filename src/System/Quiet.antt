-- ===== src/System/Quiet.antt =====
-- No handler of the program loses a webhook message or marks one as delivered too early.
pub mod Chain
pub mod Payouts
pub mod PayinLedger
pub mod Payins
pub mod Settlements
pub mod Reconciliation
