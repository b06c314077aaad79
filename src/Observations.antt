-- ===== src/Observations.antt =====
-- src/kayak/db/observations.py: `store_observation` and `store_observations`.
-- The table `observation` is a list. Values (`float`) and moments (`datetime`) are parameters, with
-- what the code asks of them; times that are compared are in microseconds.
pub mod Store
pub mod Batches
pub mod Accepted
mod Tests
