-- ===== src/Tests.antt =====
-- Runs of the model on concrete inputs.
pub mod Lines
pub mod Sessions
pub mod Trackers
pub mod Runs
pub mod Cycles
pub mod Ports
pub mod Builds
pub mod Wakes
pub mod LineModes
pub mod Wiring
pub mod Serial
pub mod TestCycles
