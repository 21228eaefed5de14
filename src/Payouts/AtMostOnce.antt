-- ===== src/Payouts/AtMostOnce.antt =====
-- That no payout is broadcast twice, for every interleaving of the handlers of PayoutsService.
pub mod Potential
pub mod Calls
pub mod Updates
pub mod Rail
pub mod Authorize
pub mod Batch
pub mod Service
pub mod Requests
