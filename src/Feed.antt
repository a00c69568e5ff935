-- ===== src/Feed.antt =====
-- app/instadroid/parsing.py: reading the post cards, and a restriction, off one dump of the screen.
pub mod Cards
pub mod Reading
pub mod Limits
pub mod Restricted
mod Tests
