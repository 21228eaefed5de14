-- ===== src/Payins/Confirmed.antt =====
-- That a confirmed pay-in was paid exactly or accepted by hand, for every interleaving of the handlers
-- of PayinsService (src/payins/payins.service.ts).
pub mod Row
pub mod Calls
pub mod Chain
pub mod Handlers
pub mod Sweeps
pub mod Create
pub mod Requests
