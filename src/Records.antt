-- ===== src/Records.antt =====
-- The data of the service: the records that the tables hold, and the requests' contexts.
pub mod Common
pub mod Payout
pub mod PayIn
pub mod Outbox
pub mod Settlement
