-- ===== src/Diagnostics.antt =====
-- app/instadroid/diagnostics.py and app/instadroid/backup.py: names and the files that are kept.
pub mod Names
pub mod Named
pub mod Backups
pub mod Fresh
mod Tests
