-- ===== src/Stories.antt =====
-- app/instadroid/stories.py: the stories of the Home feed's tray, and what is stored of them.
pub mod Hash
pub mod Storing
pub mod Apart
pub mod Files
mod Tests
