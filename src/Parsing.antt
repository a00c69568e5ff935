-- ===== src/Parsing.antt =====
-- app/instadroid/parsing.py: what identifies a post. Text is its code points.
pub mod Words
pub mod Weak
pub mod Identity
pub mod Keys
pub mod Sightings
