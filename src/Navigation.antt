-- ===== src/Navigation.antt =====
-- app/instadroid/navigation.py: collecting the Following list, and replacing an outdated Instagram.
pub mod Collecting
pub mod Collected
pub mod Updating
pub mod Driving
pub mod Login
mod Kept
pub mod Careful
mod Typed
pub mod LoggedIn
pub mod Names
pub mod Sheets
pub mod Feeds
pub mod Arrived
pub mod Backing
mod Tests
