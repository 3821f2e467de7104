-- ===== src/History/Log.antt =====
-- The append-only store of takt/history/history.go.
mod Defs
pub mod Interface
pub mod Durable
unfoldable pub use Defs.*
