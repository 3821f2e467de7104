-- ===== src/History/Validate.antt =====
-- The validation of takt/history: its checks, and what an accepted entry is known to be.
mod Defs
unfoldable pub use Defs.*
