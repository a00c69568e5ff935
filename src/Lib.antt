-- ===== src/Lib.antt =====
-- instadroid: a scraper that drives the Instagram app on an Android container, and a server that
-- publishes what it stored as feeds. This library models the scraper's logic and the parts of the
-- server that decide over it.
--
-- How the parts interact: the poll loop (app/instadroid/scrape.py) waits for its turn by the
-- control files, the daily budget and the failure backoff, runs one scrape, records it in the runs
-- table and sleeps. A scrape walks down the feed a dump at a time; each dump is read into cards, a
-- card is given its identity, looked for in the posts table, and then skipped, merged or inserted.
-- After that come renames, stories, retention and the alerts. The feed server shares the database
-- and the control files.
--
--   Prelude      lists, options and texts; a text is the list of its code points
--   Control      app/shared/control.py (Files), app/instadroid/control.py (Wait) and
--                app/feedserver/control.py: lock, hold and scrape-now. Laws and Waiting have the
--                proofs
--   Db           app/instadroid/db.py: Runs (record_run, consecutive_failures), Posts and Merge
--                (find_duplicate, merged_fields, write_merged), Following (store_following),
--                Renames (rename_account, note_rename_candidate), Drift (check_selector_drift).
--                Rows, Merging, Finding, Allowlist and Renaming have the proofs
--   Schedule     app/instadroid/device.py sample_duration (Sample); poll_interval_seconds,
--                next_sleep_seconds, budget_wait_seconds of app/instadroid/scrape.py and
--                app/shared/timestamps.py (Delays). Backoff and Budget have the proofs
--   Parsing      app/instadroid/parsing.py: the identity of a card (Words, Weak, Identity); Keys
--                and Sightings have the proofs
--   Feed         parse_hierarchy and clean_caption (Cards) and restriction_text (Limits) of
--                app/instadroid/parsing.py. Reading and Restricted have the proofs
--   Common       app/instadroid/common.py: bounds strings and file names
--   Scrape       app/instadroid/scrape.py: _store_post and what it calls (Storing), _handle_card
--                (Handling), _walk_feed (Walking). Inserting, Keyed and Walked have the proofs
--   Retention    app/instadroid/retention.py (Pruning); Kept
--   Alerts       app/instadroid/alerts.py (Conditions, Table). Settled and Kinds have the proofs
--   Device       MemoryGuard and RunClock of app/instadroid/device.py
--   Web          app/feedserver/auth.py and scraper_health of app/feedserver/status.py (Auth),
--                the lines of its status page that decide something (Status). Guarded and Agreed
--                have the proofs
--   Pages        app/feedserver/queries.py and browse.py: the search query (Query), the order of
--                posts (Order), the pages of /browse (Archive) and the filter of a posts feed
--                (Filters). Cursor, Paging, Words and Matching have the proofs
--   Loop         _poll_loop and run_recorded of app/instadroid/scrape.py, over Control, Schedule
--                and Db (Turn). Pace and Holding have the proofs
--   Capture      the permalink pattern of app/igprofiles/v424/selectors.py (Permalink) and
--                fetch_permalink with what it calls of app/instadroid/capture.py (Copying).
--                Polling and Links have the proofs
--   Stories      app/instadroid/stories.py: _dhash (Hash), _store_story and scrape_stories
--                (Storing). Apart and Files have the proofs
--   Reshare      app/instadroid/reshare.py: the cache of _post_images (Thumbnails), find_reshared
--                and drop_reshared_stories (Searching). Current, Found and Dropped have the
--                proofs
--   Profiles     app/igprofiles/__init__.py (Choice), app/igprofiles/base.py (Builds) and
--                activate_profile of app/instadroid/versioning.py (Active). Covering, Selected,
--                Newer, Verified and Unwarned have the proofs
--   Navigation   app/instadroid/navigation.py: scrape_following_list and refresh_following_list
--                (Collecting), the choice of _update_instagram (Updating), ensure_logged_in with
--                all it calls (Login), close_sheets and back_to_feed (Sheets) and the openers of
--                the feeds and of the Following list (Feeds), over the log of what was asked and
--                done (Driving). Names, Collected, Kept, Careful, Typed, LoggedIn, Backing and
--                Arrived have the proofs
--   Diagnostics  the names of captures of app/instadroid/diagnostics.py (Names); Named. And
--                app/instadroid/backup.py (Backups); Fresh
--   Migrations   the migrations of app/instadroid/db.py that change rows (Steps). Keyed and
--                Rehashed have the proofs
--
-- Conventions. A table is the list of its rows in the order of their rowids, newest first for
-- runs. A time is a number of whole seconds, a setting in hours or minutes its seconds, and a time
-- that is missing or cannot be read is none. Functions that depend on the clock take the time. A
-- database error that the code can raise is a result of none.
--
-- Loops are by recursion on the list they read. The wait of Control.Wait recurs on fuel, one more
-- than the seconds to wait: each turn sleeps at least one second. The walk down the feed reads a
-- list of the dumps that the device will show, and the poll loop a list of what surrounds each of
-- its turns. The scrolls of Navigation.Collecting recur on the rounds left up to
-- MAX_FOLLOWING_SCROLLS, and the attempts of Navigation.Login, Sheets and Feeds on those left.
-- Following the Older links takes one more page than there are posts at most: each page but the
-- last one shows a post.
--
-- Parameters: the answers of the device (dumps, crops, the share sheet, the clipboard), the draws
-- of Python's random, sha256 and HMAC, Base64, Unicode's letters and digits beyond ASCII,
-- `str.lower` and `str.casefold`, the other selectors of a profile, the import of a profile's
-- package, what Pillow computes of pixels, the files' sizes and times, parse_posted_at, and the
-- wording of alerts.
--
-- Not modelled: pauses and debug dumps, a profile's overrides of functions, the crops of
-- app/instadroid/capture.py, reading the story viewer and the tray, app/instadroid/install.py and
-- app/instadroid/export.py, which drive the device or do I/O; the schema and the search index of
-- app/instadroid/db.py; the rendering of feeds and pages; the pruning of debug dumps; logging; the
-- development tools.
pub mod Prelude
pub mod Control
pub mod Db
pub mod Schedule
pub mod Parsing
pub mod Common
pub mod Feed
pub mod Retention
pub mod Scrape
pub mod Alerts
pub mod Device
pub mod Web
pub mod Loop
pub mod Capture
pub mod Stories
pub mod Reshare
pub mod Profiles
pub mod Navigation
pub mod Migrations
pub mod Pages
pub mod Diagnostics
