-- ===== src/Sync.antt =====
-- `levels sync-metadata`: src/kayak/cli/sync_metadata.py, src/kayak/db/metadata_csv.py and the gate of
-- src/kayak/dataset/contract.py.
pub mod Contract
pub mod Usable
pub mod Rows
pub mod Plan
pub mod Needed
pub mod Exact
pub mod Apply
pub mod Outcome
pub mod Kept
mod Tests
