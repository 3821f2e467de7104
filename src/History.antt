-- ===== src/History.antt =====
-- Package takt/history: the recorded acts, their validation, and the projection that replays them.
pub mod Kinds
pub mod Entry
pub mod Validate
pub mod Projection
pub mod Fold
pub mod Keys
pub mod Attempts
pub mod Attach
pub mod Log
