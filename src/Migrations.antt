-- ===== src/Migrations.antt =====
-- The migrations of app/instadroid/db.py over the rows that older versions stored.
pub mod Steps
pub mod Keyed
pub mod Rehashed
mod Tests
