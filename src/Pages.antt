-- ===== src/Pages.antt =====
-- app/feedserver: the pages and feeds that the stored posts are read through.
pub mod Query
pub mod Order
pub mod Archive
pub mod Words
pub mod Filters
pub mod Matching
mod Cursor
mod Paging
mod Tests
