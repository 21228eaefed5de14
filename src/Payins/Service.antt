-- ===== src/Payins/Service.antt =====
-- PayinsService (src/payins/payins.service.ts).
pub mod Defs
pub mod Create
pub mod Reconcile
pub mod Sweep
pub mod Accept
unfoldable pub use Defs.*
unfoldable pub use Create.*
unfoldable pub use Reconcile.*
unfoldable pub use Sweep.*
unfoldable pub use Accept.*
