-- ===== src/Audit.antt =====
-- crates/beater-journal/src/decision_audit.rs: the append-only histories of decisions.
pub mod Package
pub mod Checks
pub mod Canonical
pub mod Event
pub mod Tables
pub mod Reading
pub mod Continuing
pub mod Appending
pub mod Chain
pub mod Digested
pub mod Flows
pub mod Appended
pub mod Growth
pub mod AppendOnly
mod Examples
