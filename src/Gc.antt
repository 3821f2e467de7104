-- ===== src/Gc.antt =====
-- Package takt/gc: when a maintenance cycle starts, and what it declares.
pub mod Trigger
pub mod Rounds
pub mod Plan
pub mod Coordinator
