-- ===== src/Cache.antt =====
-- src/kayak/db/cache.py: the newest reading of each source and of each gauge.
pub mod Tables
pub mod Newest
pub mod Bulk
pub mod Picked
pub mod Agreement
pub mod Tests
