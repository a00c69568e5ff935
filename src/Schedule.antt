-- ===== src/Schedule.antt =====
-- app/instadroid/scrape.py and app/instadroid/device.py: when the next run starts. Durations and times
-- are whole seconds; a setting in hours or minutes is held in seconds, one below 0 as 0.
pub mod Sample
pub mod Delays
pub mod Backoff
pub mod Budget
