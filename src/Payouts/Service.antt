-- ===== src/Payouts/Service.antt =====
-- PayoutsService (src/payouts/payouts.service.ts). Reading the clock and drawing a UUID are calls
-- of their own, so more interleavings are considered than the program has.
mod Defs
mod Authorize
mod Batch
mod Reconcile
unfoldable pub use Defs.*
unfoldable pub use Authorize.*
unfoldable pub use Batch.*
unfoldable pub use Reconcile.*
