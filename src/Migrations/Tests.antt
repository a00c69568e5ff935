-- ===== src/Migrations/Tests.antt =====
-- The migrations of a small table.
use instadroid.Prelude.{ℕ, ◌+◌, ◌≡◌, refl, true, false, Option, none, some, [], ◌∷◌, Text, codes}
use instadroid.Feed.Cards.{Post, is_empty}
use instadroid.Db.Posts.{StoredPost}
use instadroid.Retention.Pruning.{Store}
use instadroid.Scrape.Storing.{Given, shown, post_id, is_seen_as}
use instadroid.Migrations.Steps.{rehashed}
use instadroid.Migrations.Rehashed.{rehashed-is_seen_as}

abbrev given : Given
given = record {
  weak = λ t. false;
  digest = λ t. t;
  wide_digit = λ c. false;
  wide_word = λ c. false;
  show = λ n. (48 + n) ∷ [];
  suffix = λ f. codes ".jpg";
}

abbrev undated : Text → ℕ → Option (ℕ × ℕ)
undated date scraped = none

abbrev card : Post
card = record {
  kind = codes "photo";
  username = codes "ann";
  posted_date = codes "2 hours ago";
  place = [];
  caption = codes "a walk by the sea";
  caption_bounds = none;
  caption_truncated = false;
  bounds = none;
  share_bounds = none;
  header_bounds = none;
  clip_top = 0;
  alt = [];
  headless = false;
  complete = true;
  merged_reel = false;
}

abbrev row : StoredPost
row = record {
  id = codes "h1";
  username = codes "ann";
  kind = some (codes "photo");
  posted_date = some (codes "2 hours ago");
  caption = some (codes "a walk by the sea");
  media_file = some (codes "h1.jpg");
  scraped_at = 90000;
  hash = some (codes "old");
  alt_hash = none;
  url = none;
  place = none;
  posted_at = some 80000;
  updated_at = none;
  ig_version = none;
  permalink_attempts = 1;
}

abbrev stored : Store
stored = record { posts = row ∷ []; slides = []; stories = []; disk = codes "h1.jpg" ∷ [] }

rehashed-is_seen_as_example :
    is_seen_as (post_id given card) (rehashed given undated none 99000 row) ≡ true
unfolding shown is_empty
rehashed-is_seen_as_example = rehashed-is_seen_as given undated none 99000 card row refl refl refl
