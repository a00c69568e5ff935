-- ===== src/Profiles.antt =====
-- app/igprofiles: which profile and which build of Instagram the scraper chooses, and what it warns of.
pub mod Builds
pub mod Choice
pub mod Covering
pub mod Newer
pub mod Verified
pub mod Selected
pub mod Active
pub mod Unwarned
mod Tests
