-- ===== src/Scrape.antt =====
-- app/instadroid/scrape.py: what a run does with the cards of the feed.
pub mod Storing
pub mod Handling
pub mod Inserting
pub mod Keyed
pub mod Walking
pub mod Walked
mod Tests
