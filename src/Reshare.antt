-- ===== src/Reshare.antt =====
-- app/instadroid/reshare.py: stories that only reshare a stored post.
pub mod Thumbnails
pub mod Current
pub mod Searching
pub mod Dropped
pub mod Found
mod Tests
