-- ===== src/Journal/Examples.antt =====
-- A concrete serde for the journal, in which a written document is the value that was written, and
-- the journal's theorems at concrete databases.
pub mod Document
pub mod Data
pub mod Runs
pub mod Goals
pub mod Projection
