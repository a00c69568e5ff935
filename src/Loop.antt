-- ===== src/Loop.antt =====
-- The poll loop of app/instadroid/scrape.py: _poll_loop() and run_recorded().
pub mod Turn
pub mod Pace
pub mod Holding
mod Tests
