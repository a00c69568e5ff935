-- ===== src/Retention.antt =====
-- app/instadroid/retention.py: what is deleted from the database and from the media directory.
pub mod Pruning
pub mod Kept
