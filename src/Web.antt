-- ===== src/Web.antt =====
-- app/feedserver: who a request is let in for, and whether the scraper is healthy.
pub mod Auth
pub mod Guarded
pub mod Status
pub mod Agreed
mod Tests
