-- ===== src/Tests.antt =====
-- Test data, runs at concrete inputs, and the theorems at inputs that meet their hypotheses.
pub mod Configs
pub mod Engines
pub mod Models
pub mod Programs
pub mod Sinks
pub mod Openings
pub mod Runs
pub mod Launches
pub mod Sessions
pub mod Ingests
