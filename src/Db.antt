-- ===== src/Db.antt =====
-- app/instadroid/db.py: the SQLite tables and the operations on them. A table is the list of its rows.
pub mod Runs
pub mod Posts
pub mod Merge
pub mod Rows
pub mod Merging
pub mod Finding
pub mod Following
pub mod Allowlist
pub mod Renames
pub mod Renaming
pub mod Drift
mod Tests
