-- ===== src/Orchestration.antt =====
-- The coordination of workflows (internal/orchestration): their graphs, their states, and the operations
-- of the coordinator over the store.
pub mod Graph
pub mod States
pub mod Steps
pub mod Control
pub mod Inputs
pub mod Rounds
pub mod Review
pub mod Compensation
pub mod Definition
pub mod Runs
pub mod Start
pub mod Schedule
mod Tests
