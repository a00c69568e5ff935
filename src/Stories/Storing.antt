-- ===== src/Stories/Storing.antt =====
-- _find_story_duplicate(), _store_story(), _reach_home() and scrape_stories() of
-- app/instadroid/stories.py, over the stories table (the newest row first) and the file names below
-- MEDIA_DIR. Times are whole seconds. What the device shows for a tray item, and what Pillow reads of
-- the saved frame, is a record.
use instadroid.Prelude.{
  ℕ, ◌+◌, Bool, true, false, not, ◌&&◌, ◌||◌, Option, none, some, List, [], ◌∷◌, ◌++◌, leb, ltb,
  if◌then◌else◌, Text, codes, text_eq, any, keep, take,
}
use instadroid.Retention.Pruning.{Story}
use instadroid.Stories.Hash.{dhash, differing}

-- CapturedStory with what its frame holds: the crop's file and its suffix, whether the body is blank,
-- the 72 pixels that _dhash() compares, and the digest of the body's bytes.
pub record CapturedStory : Type 0 where
  pub username : Text
  pub posted_date : Text
  pub path : Text
  pub suffix : Text
  pub is_blank : Bool
  pub pixels : List ℕ
  pub digest : Text

pub record Shelf : Type 0 where
  pub stories : List Story
  pub files : List Text

abbrev pub day : ℕ
day = 86400

abbrev pub story_phash_distance : ℕ
story_phash_distance = 10

abbrev pub story_phash_distance_other : ℕ
story_phash_distance_other = 4

-- a row of the last day whose hash is near enough
unfoldable pub looks_like : ℕ → Text → ℕ → Story → Bool
looks_like now username phash s = elim s.phash [
  | none ↦ false
  | some h ↦
      ltb now (s.scraped_at + day)
      && leb (differing 64 h phash)
          (if text_eq s.username username then story_phash_distance else story_phash_distance_other)
]

unfoldable pub find_story_duplicate : List Story → ℕ → Text → ℕ → Bool
find_story_duplicate stories now username phash = any (looks_like now username phash) stories

unfoldable pub unlink : Text → List Text → List Text
unlink f files = keep (λ x. not (text_eq x f)) files

unfoldable pub rename_path : Text → Text → List Text → List Text
rename_path old new files = new ∷ keep (λ x. not (text_eq x old || text_eq x new)) files

unfoldable pub story_file : CapturedStory → Text
story_file c = codes "stories/" ++ (c.digest ++ c.suffix)

unfoldable pub new_story : ℕ → CapturedStory → Story
new_story now c = record {
  id = c.digest;
  username = c.username;
  media_file = some (story_file c);
  posted_date = some c.posted_date;
  scraped_at = now;
  phash = some (dhash c.pixels);
}

-- _store_story(); the insert is ignored when the id is there
unfoldable pub store_story : ℕ → CapturedStory → Shelf → Shelf × Bool
store_story now c s =
    let discarded : Shelf = record s { files = unlink c.path s.files } in
    let stored : Shelf = record {
      stories = new_story now c ∷ s.stories;
      files = rename_path c.path (story_file c) s.files;
    } in
    if c.is_blank || find_story_duplicate s.stories now c.username (dhash c.pixels)
    then (discarded, false)
    else if any (λ x. text_eq x.id c.digest) s.stories
    then (discarded, false)
    else (stored, true)

-- A tray item, and what came of it: on_home_feed() before it and after each recovery, the frame that
-- capture_story() saved, and the clock.
pub record TrayItem : Type 0 where
  pub seen : Bool
  pub on_home : Bool
  pub recovered : List Bool
  pub captured : Option CapturedStory
  pub now : ℕ

-- _reach_home(), of the looks at the screen
unfoldable pub reach_home : List Bool → Bool
reach_home looks = any (λ b. b) (take 3 looks)

unfoldable pub store_captured : TrayItem → Shelf → Shelf × Bool
store_captured i s = elim i.captured [ none ↦ (s, false) | some c ↦ store_story i.now c s ]

unfoldable pub visit_items : List TrayItem → Shelf × ℕ → Shelf × ℕ
visit_items [] (s, new) = (s, new)
visit_items (i ∷ items) (s, new) =
    let (s', stored) = store_captured i s in
    let rest = visit_items items (s', if stored then new + 1 else new) in
    if not i.on_home && not (reach_home i.recovered) then (s, new) else rest

-- scrape_stories(), of the looks for the Home feed
unfoldable pub scrape_stories : ℕ → List Bool → List TrayItem → Shelf → Shelf × ℕ
scrape_stories max_stories_per_run looks tray s =
    if not (reach_home looks)
    then (s, 0)
    else visit_items (take max_stories_per_run (keep (λ i. not i.seen) tray)) (s, 0)
