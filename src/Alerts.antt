-- ===== src/Alerts.antt =====
-- app/instadroid/alerts.py.
pub mod Conditions
pub mod Table
pub mod Settled
pub mod Kinds
mod Tests
