-- ===== src/Effect.antt =====
-- An asynchronous request handler, as the tree of its database and network calls. Between two
-- calls (two `await`s) other handlers may run, so each call is one atomic step on the world.
pub mod Weakest
pub mod Neutral
pub mod Yields
pub mod Steps
pub mod Pool
pub mod Grows
pub mod Sequential
pub mod Returns
pub mod Each
mod Errors
mod Defs
pub use Errors.*
unfoldable pub use Defs.*
