-- ===== src/Blockchain.antt =====
-- BlockchainService (src/blockchain/blockchain.service.ts).
pub mod Rail
pub mod Paginate
pub mod Logs
pub mod Deposit
pub mod Coverage
pub mod Finality
