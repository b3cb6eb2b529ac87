-- ===== src/Runner.antt =====
-- The test runner (src/etst/runner.py), one module for each group of its methods.
pub mod Args
pub mod Results
pub mod Stage
pub mod Serial
pub mod Cycle
pub mod Connection
pub mod TestCycle
pub mod Summary
pub mod Plugins
pub mod LineMode
pub mod Waking
pub mod Receivers
