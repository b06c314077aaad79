-- ===== src/EditorBridge/Patch.antt =====
-- src/kayak/editor_bridge/dataset_patch.py: one endorsed diff is written into reach.csv or gauge.csv.
-- Texts of files are lists of code points. `csv.reader` and `csv.writer` are parameters.
pub mod Types
pub mod Diff
pub mod Rows
pub mod Write
pub mod Apply
pub mod Lines
pub mod Updates
pub mod Drift
pub mod Located
pub mod Scope
pub mod Applied
pub mod Tests
