-- ===== src/Settlements.antt =====
-- Confidential settlements (src/settlements/, and the PrivateSettlementRegistry calls of
-- src/blockchain/blockchain.service.ts).
pub mod Registry
pub mod Repository
pub mod Service
pub mod Opening
pub mod Requests
pub mod Outcome
