-- ===== src/Payins.antt =====
-- Pay-ins: the ledger's statements, the incremental scan, and PayinsService.
pub mod Ledger
pub mod Scan
pub mod Service
pub mod Confirmed
