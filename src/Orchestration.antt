-- ===== src/Orchestration.antt =====
-- src/gateway/application/orchestration.py: a run is carried from an idea to a project, with the calls
-- of the agents, the store of runs, the log of their streams and the meter that bills them.
pub mod Answers
pub mod Prompt
pub mod Planner
pub mod Scan
pub mod Moves
pub mod Generation
pub mod Metered
pub mod Project
pub mod Rendering
pub mod Machine
pub mod Stored
pub mod Refinement
pub mod Settles
pub mod Delivery
pub mod Charges
mod Tests
