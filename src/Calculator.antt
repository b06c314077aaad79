-- ===== src/Calculator.antt =====
-- src/kayak/cli/calculator.py: the readings that are computed from other gauges' readings.
pub mod Order
pub mod Sorted
pub mod Solvable
pub mod Evaluate
pub mod Meaning
pub mod Whitelist
pub mod Sources
pub mod Refs
pub mod Run
pub mod InSync
pub mod Sound
pub mod Tests
mod RunTests
