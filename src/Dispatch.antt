-- ===== src/Dispatch.antt =====
-- Package takt/dispatch: the decisions that admit, end and recover delegated work, each recorded in
-- the execution history.
pub mod Policy
pub mod Admission
pub mod Lifecycle
pub mod Budget
pub mod Recovery
pub mod Plan
pub mod Interlocutor
pub mod Activities
pub mod Seats
