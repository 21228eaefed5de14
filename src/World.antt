-- ===== src/World.antt =====
-- What the handlers share: the tables of the database, the transactions that were sent, what the
-- outside answers, and the configuration; with the calls that every part makes.
mod State
mod Setup
mod Calls
pub mod Alone
pub mod Unchanged
pub use State.*
pub use Setup.*
unfoldable pub use Calls.*
