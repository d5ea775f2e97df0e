-- ===== src/Journal.antt =====
-- crates/beater-journal: the journal of runs, steps and goals.
pub mod Model
pub mod Serde
pub mod Validate
pub mod Store
pub mod Runs
pub mod Steps
pub mod Goals
pub mod Milestones
pub mod Recording
pub mod History
pub mod Projection
pub mod Laws
pub mod Gate
pub mod Requires
pub mod Status
pub mod Keeps
pub mod Leads
pub mod Frame
pub mod RunFrame
pub mod StepFrame
pub mod Bound
pub mod Session
pub mod Examples
