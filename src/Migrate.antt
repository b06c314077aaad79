-- ===== src/Migrate.antt =====
-- src/kayak/cli/migrate.py: the manifest of schema migrations, the statement splitter, and the run
-- that applies what is pending. Texts are lists of code points.
pub mod Manifest
pub mod Statements
pub mod Apply
pub mod Discovered
pub mod Resume
pub mod Stamped
mod Tests
