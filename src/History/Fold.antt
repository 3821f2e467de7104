-- ===== src/History/Fold.antt =====
-- The replay of takt/history/projection.go.
mod Budgeted
mod Defs
pub mod View
pub mod Lifecycle
pub mod Slots
pub mod Sessions
pub mod Unplanned
pub mod Covered
pub mod Placed
pub mod Effect
pub mod Growth
unfoldable pub use Budgeted.*
unfoldable pub use Defs.*
