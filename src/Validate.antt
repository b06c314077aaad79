-- ===== src/Validate.antt =====
-- src/kayak/cli/validate_dataset.py: the checks of a dataset.
pub mod Regression
pub mod Closure
pub mod Steps
pub mod Closed
pub mod Measure
pub mod Reached
pub mod Found
pub mod Ints
pub mod Bounded
pub mod Counters
pub mod Empty
pub mod Sound
pub mod Allocated
pub mod Checked
mod Tests
