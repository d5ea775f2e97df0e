-- ===== src/Runner.antt =====
-- crates/beater-agent/src/runner.rs: the loop of an agent run, its tool calls and its resumption.
pub mod Json
pub mod Replay
pub mod Replayable
pub mod Agreement
pub mod Act
pub mod Tools
pub mod Loop
pub mod Resuming
pub mod Owned
pub mod Flows
pub mod Executes
pub mod Rounds
pub mod Recovery
pub mod Bounds
pub mod Recorded
mod Examples
