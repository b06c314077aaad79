-- ===== src/Decimate.antt =====
-- src/kayak/cli/decimate.py: old observations are thinned to one for each hour, and older ones to one
-- for each six hours.
pub mod Thin
pub mod Run
pub mod Survivors
pub mod Whole
pub mod Thinned
pub mod Nearest
pub mod Again
pub mod Synced
mod Tests
