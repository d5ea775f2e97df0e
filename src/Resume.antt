-- ===== src/Resume.antt =====
-- crates/beater-agent/src/resume_contract.rs: the identity of a tool's declaration.
pub mod Canonical
pub mod Bounds
pub mod Reordered
pub mod Contract
pub mod Examples
