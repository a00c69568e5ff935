-- ===== src/Scrape/Storing.antt =====
-- _store_post(), _find_stored(), _stored_under(), _fetch_permalink(), _backfill_permalink() and
-- _rename_media() of app/instadroid/scrape.py. What the device did for a card (its crops, the link that
-- its share sheet gave, its expanded caption) is a record of answers.
use instadroid.Prelude.{
  ℕ, ◌+◌, Bool, false, not, ◌&&◌, ◌||◌, Option, none, some, is_some, List, [], ◌∷◌, ◌++◌, ltb, ◌==◌,
  if◌then◌else◌, Text, text_eq, opt_eq, keep, any, find?,
}
use instadroid.Parsing.Identity.{same_caption, post_key}
use instadroid.Db.Posts.{StoredPost, truthy, by_id, update_id, insert_row, find_duplicate}
use instadroid.Db.Merge.{merged_fields, write_merged, remember_hash}
use instadroid.Capture.Permalink.{permalink_code}
use instadroid.Capture.Copying.{Fail, sheet, clipboard, repeat}
use instadroid.Feed.Cards.{Post, is_empty}
use instadroid.Retention.Pruning.{Slide, file_of, discard_media}

-- What the code calls and the model does not read: sha256, the regular expression of
-- is_weak_caption(), Unicode's digits and word characters, str(int) and Path.suffix.
pub record Given : Type 0 where
  pub weak : Text → Bool
  pub digest : Text → Text
  pub wide_digit : ℕ → Bool
  pub wide_word : ℕ → Bool
  pub show : ℕ → Text
  pub suffix : Text → Text

-- One card's answers: expand_caption(), crop_media(), capture_carousel(), fetch_permalink() with its
-- reason, link_was_certain(), _reopen_feed_if_left(), _shared_post(), parse_posted_at() and the clock.
pub record Answers : Type 0 where
  pub expanded : Text
  pub media : Option Text
  pub slides : List Text
  pub link : Option Text
  pub failed : Option Fail
  pub certain : Bool
  pub left_feed : Bool
  pub shared : Bool
  pub posted : Option (ℕ × ℕ)
  pub now : ℕ

-- the posts and media tables, and MEDIA_DIR
pub record Saved : Type 0 where
  pub posts : List StoredPost
  pub slides : List Slide
  pub disk : List Text

-- p["caption"] or p["alt"]
unfoldable pub shown : Post → Text
shown p = if is_empty p.caption then p.alt else p.caption

abbrev pub first_of : {A B : Type 0} → Option (A × B) → Option A
first_of none = none
first_of (some (a, b)) = some a

abbrev pub second_of : {A B : Type 0} → Option (A × B) → Option B
second_of none = none
second_of (some (a, b)) = some b

-- hash=? OR alt_hash=? OR id=?
unfoldable pub is_seen_as : Text → StoredPost → Bool
is_seen_as h p = opt_eq p.hash (some h) || (opt_eq p.alt_hash (some h) || text_eq p.id h)

rename_file : Text → Text → List Text → List Text
rename_file old new disk = new ∷ keep (λ f. not (text_eq f old || text_eq f new)) disk

-- the UPDATE of a try, and of a link that was found
unfoldable pub tried : StoredPost → StoredPost
tried p = record p { permalink_attempts = p.permalink_attempts + 1 }

unfoldable pub linked : Text → ℕ → StoredPost → StoredPost
linked url now p = record p { url = some url; updated_at = some now }

unfoldable pub needs_permalink : ℕ → StoredPost → Bool
needs_permalink tries p = not (is_some p.url) && ltb p.permalink_attempts tries

is_taken : Text → Text → Text → StoredPost → Bool
is_taken code url post_id p =
    (text_eq p.id code || opt_eq p.url (some url)) && not (text_eq p.id post_id)

pub data Stored : Type 0 where
  as_new : Stored
  merged : Stored
  skipped : Stored

-- INSERT OR REPLACE INTO media, by (post_id, idx)
put_slide : Slide → List Slide → List Slide
put_slide m slides =
    keep (λ x. not (text_eq x.post_id m.post_id && (x.idx == m.idx))) slides ++ m ∷ []

unfoldable pub put_slides : Text → ℕ → List Text → List Slide → List Slide
unfolding put_slide
put_slides pid i [] slides = slides
put_slides pid i (f ∷ files) slides =
    put_slides pid (i + 1) files (put_slide (record { post_id = pid; idx = i; file = f }) slides)

module _ (g : Given) where
  -- post_id()
  unfoldable pub post_id : Post → Text
  post_id p = g.digest (post_key g.wide_digit p.username p.caption p.alt)

  slide_name : Text → ℕ → Text → Text
  slide_name pid i f = pid ++ 95 ∷ g.show i ++ g.suffix f

  rename_slides : Text → ℕ → List Text → List Text × List Text → List Text × List Text
  unfolding rename_file slide_name
  rename_slides pid i [] (names, disk) = (names, disk)
  rename_slides pid i (f ∷ files) (names, disk) =
      let n = slide_name pid i f in
      rename_slides pid (i + 1) files (names ++ n ∷ [], rename_file f n disk)

  -- _rename_media(): the names and the directory
  unfoldable pub rename_media : Text → Text → List Text → List Text → Text × (List Text × List Text)
  unfolding rename_file rename_slides slide_name
  rename_media pid media extra disk =
      let n = pid ++ g.suffix media in (n, rename_slides pid 1 extra ([], rename_file media n disk))

  unfoldable pub stored_under : List StoredPost → Text → Post → Bool
  stored_under posts url p = elim (by_id (permalink_code g.wide_word url) posts) [
    | none ↦ false
    | some row ↦ text_eq row.username p.username && same_caption g.weak row.caption (some (shown p))
  ]

  -- _fetch_permalink(), `p` none for a backfill: the link, and the reason counted
  unfoldable pub fetch_permalink :
      List StoredPost → Option Post → Option Text → Option Fail → Option Text × Option Fail
  fetch_permalink posts p none (some repeat) = (none, some clipboard)
  fetch_permalink posts none (some url) (some repeat) = (none, some clipboard)
  fetch_permalink posts (some p) (some url) (some repeat) =
      if truthy (some url) && stored_under posts url p
      then (some url, none)
      else (none, some clipboard)
  fetch_permalink posts p link (some sheet) = (link, some sheet)
  fetch_permalink posts p link (some clipboard) = (link, some clipboard)
  fetch_permalink posts p link none = (link, none)

  -- _find_stored(): the row, and the posts with the hash recorded
  unfoldable pub find_stored :
      Option ℕ → Post → Text → List StoredPost → Option StoredPost × List StoredPost
  find_stored since p h posts = elim (find? (is_seen_as h) posts) [
    | some row ↦ (some row, posts)
    | none ↦
        if not (is_empty p.posted_date)
        then (none, posts)
        else elim (find_duplicate g.weak posts since p.username none none (some (shown p)) none) [
          | none ↦ (none, posts)
          | some row ↦ (some row, remember_hash row.id h posts)
        ]
  ]

  -- what _backfill_permalink() writes for a link
  unfoldable pub link_stored : Text → Option Text → ℕ → List StoredPost → List StoredPost
  unfolding is_taken
  link_stored id none now posts = posts
  link_stored id (some url) now posts =
      if truthy (some url) && not (any (is_taken (permalink_code g.wide_word url) url id) posts)
      then update_id id (linked url now) posts
      else posts

  -- _backfill_permalink(): the posts, and the reason counted
  unfoldable pub backfill_permalink :
      Answers → StoredPost → List StoredPost → List StoredPost × Option Fail
  backfill_permalink a row posts =
      let (url, reason) = fetch_permalink posts none a.link a.failed in
      (link_stored row.id url a.now (update_id row.id tried posts), reason)

  -- the card with its caption expanded
  unfoldable pub expand : Answers → Post → Post
  expand a p = if p.caption_truncated then record p { caption = a.expanded } else p

  unfoldable pub new_row :
      Answers → Post → Text → Text → Option Text → Option Text → Option Text → StoredPost
  new_row a p h pid url media ig_version =
      let hash = post_id p in
      record {
        id = pid;
        username = p.username;
        kind = some p.kind;
        posted_date = some p.posted_date;
        caption = some (shown p);
        media_file = media;
        scraped_at = a.now;
        hash = some h;
        alt_hash = if text_eq hash h then none else some hash;
        url = url;
        place = some p.place;
        posted_at = first_of a.posted;
        updated_at = some a.now;
        ig_version = ig_version;
        permalink_attempts = 0;
      }

  -- the media file, the slides and the directory: named after the permalink if it gave the id
  unfoldable pub final_names :
      Text → Text → Option Text → List Text → List Text → Option Text × (List Text × List Text)
  final_names h pid none extra disk = (none, (extra, disk))
  final_names h pid (some []) extra disk = (some [], (extra, disk))
  final_names h pid (some (c ∷ m)) extra disk =
      let (n, rest) = rename_media pid (c ∷ m) extra disk in
      if text_eq pid h then (some (c ∷ m), (extra, disk)) else (some n, rest)

  -- the insert of a new post; none is an IntegrityError
  unfoldable pub store_new : StoredPost → Text → List Text → Saved → Option (Saved × Stored)
  store_new row h extra s =
      let (media, rest) = final_names h row.id row.media_file extra s.disk in
      elim (insert_row (record row { media_file = media }) s.posts) [
        | none ↦ none
        | some posts ↦ some (
          record s { posts = posts; slides = put_slides row.id 1 rest.0 s.slides; disk = rest.1 },
          as_new,
        )
      ]

  -- _store_post(), with the card already expanded
  unfoldable pub store_post :
      Option ℕ
      → Answers
      → Post
      → Text
      → Text
      → Option Text
      → Option Text
      → Saved
      → Option (Saved × Stored)
  store_post since a p h pid url ig_version s =
      let row = new_row a p h pid url a.media ig_version in
      elim (find_duplicate g.weak s.posts since p.username row.posted_at (second_of a.posted)
        row.caption none) [
          | some dup ↦
              (let (m, dropped) = merged_fields g.weak dup row a.now in
                some (
                  record s {
                    posts = write_merged dup.id m s.posts;
                    disk = discard_media (file_of dropped ++ a.slides) s.disk;
                  },
                  merged,
                ))
          | none ↦
              if p.headless && (not (is_some row.posted_at) && not (truthy url))
              then some
                  (record s { disk = discard_media (file_of a.media ++ a.slides) s.disk }, skipped)
              else store_new row h a.slides s
        ]
