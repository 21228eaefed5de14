-- ===== src/Tests.antt =====
-- Concrete inputs for the theorems.
pub mod Setup
pub mod Payouts
pub mod Payins
pub mod Blockchain
mod Webhooks
mod Settlements
mod Http
mod Reconciliation
mod Reports
mod Clients
