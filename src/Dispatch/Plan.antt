-- ===== src/Dispatch/Plan.antt =====
-- takt/dispatch/plan.go: plan commitments and their revisions.
pub mod Graph
pub mod Edges
pub mod Kahn
pub mod Linking
pub mod Graphs
pub mod Acyclic
pub mod Members
pub mod Changes
pub mod Declaring
pub mod View
pub mod Effects
pub mod Runs
pub mod Settled
pub mod Refinement
