-- ===== src/Capture.antt =====
-- app/instadroid/capture.py: the links that a share sheet copies, and expanding a caption.
pub mod Permalink
pub mod Copying
pub mod Links
pub mod Polling
mod Tests
