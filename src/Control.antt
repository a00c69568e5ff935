-- ===== src/Control.antt =====
-- app/shared/control.py and the functions of app/instadroid/control.py and app/feedserver/control.py
-- that stand on it: the files by which a person, the feed server and the poll loop meet.
-- The control directory is a record with a field for each file. Times are whole seconds; a setting
-- in hours or minutes is held in seconds, one below 0 as 0, which every reader treats alike.
pub mod Files
pub mod Wait
pub mod Laws
pub mod Waiting
mod Tests
