-- ===== src/EditorBridge/Worker.antt =====
-- src/kayak/editor_bridge/worker.py: the state machine of the rows that the bridge works through.
-- The tables are lists of records; every function takes them and returns them with the outside
-- world `W`, in which the clones, GitHub, the clock and the mail live. A `commit` of the session
-- is the point where the written row is part of the returned tables. Log lines are left out.
pub mod Model
pub mod Rows
pub mod Prepare
pub mod Process
pub mod Passes
pub mod Checked
pub mod Valid
pub mod Commands
pub mod Lease
pub mod Retry
pub mod Opened
pub mod Alerts
mod Tests
