-- ===== src/Db/Tests.antt =====
-- Runs of the posts, the Following list and the renames on small tables.
use instadroid.Prelude.{
  ℕ, ◌+◌, ◌≡◌, ◌≢◌, Bool, true, false, Option, none, some, List, [], ◌∷◌, arith, Text, codes,
  contains, find?,
}
use instadroid.Db.Posts.{StoredPost, truthy, find_dated, is_duplicate}
use instadroid.Db.Merge.{merged_fields}
use instadroid.Db.Merging.{merged_fields-media}
use instadroid.Db.Finding.{sighting, find_dated-eq-find?}
use instadroid.Db.Following.{Following, store_following}
use instadroid.Db.Allowlist.{Guarded, store_following-guards}
use instadroid.Db.Renames.{Tables, posts_of, rename_account}
use instadroid.Db.Renaming.{rename_account-moves}
use instadroid.Db.Drift.{DriftSettings}

abbrev never_weak : Text → Bool
never_weak t = false

abbrev old_post : StoredPost
old_post = record {
  id = codes "h1";
  username = codes "ann";
  kind = some (codes "photo");
  posted_date = some (codes "2 hours ago");
  caption = some (codes "a walk by the sea");
  media_file = some (codes "h1.jpg");
  scraped_at = 90000;
  hash = some (codes "h1");
  alt_hash = none;
  url = none;
  place = none;
  posted_at = some 80000;
  updated_at = some 90000;
  ig_version = none;
  permalink_attempts = 1;
}

abbrev later_post : StoredPost
later_post = record old_post {
  id = codes "C0de";
  media_file = some (codes "h2.jpg");
  scraped_at = 95000;
  hash = some (codes "h2");
  url = some (codes "https://example.org/p/C0de");
  posted_at = some 80600;
}

abbrev renamed : Tables
renamed = record {
  posts = old_post ∷ record later_post { username = codes "anna" } ∷ [];
  accounts = [];
  following = codes "anna" ∷ [];
  candidates =
      record { old = codes "ann"; new = codes "anna"; post_id = codes "h1"; seen_at = 95000 } ∷ [];
  dismissals = [];
}

abbrev three : Following
three = record {
  stored = codes "a" ∷ codes "b" ∷ codes "c" ∷ [];
  refreshed = some 100;
  pending = [];
}

abbrev strict : DriftSettings
strict = record { baseline_runs = 3; threshold = 50; min_runs = 2 }

find_dated-eq-find?_example :
    let weak : Text → Bool = never_weak in
    let username : Text = codes "ann" in
    let posted_at : ℕ = 80600 in
    let precision : Option ℕ = some 3600 in
    let caption : Option Text = some (codes "a walk by the sea") in
    let exclude : Option Text = none in
    let posts : List StoredPost = old_post ∷ [] in
    find_dated weak posts username posted_at precision caption exclude
    ≡ find? (is_duplicate weak (sighting username posted_at precision caption) exclude) posts
find_dated-eq-find?_example =
    find_dated-eq-find? never_weak (codes "ann") 80600 (some 3600)
      (some (codes "a walk by the sea")) none (old_post ∷ [])

merged_fields-media_example :
    let weak : Text → Bool = never_weak in
    let old : StoredPost = old_post in
    let new : StoredPost = later_post in
    let now : ℕ = 95000 in
    let (row, dropped) = merged_fields weak old new now in
    ((f : Text)
      → dropped ≡ some f
      → (new.media_file ≡ some f) × (row.media_file ≡ old.media_file) × (row.media_file ≢ some f))
    × (dropped ≡ none → truthy new.media_file ≡ true → row.media_file ≡ new.media_file)
merged_fields-media_example = merged_fields-media never_weak old_post later_post 95000

rename_account-moves_example :
    let old : Text = codes "ann" in
    let new : Text = codes "anna" in
    let t : Tables = renamed in
    let (t', moved, dropped) = rename_account old new t in
    (moved ≡ posts_of old t.posts)
    × (posts_of old t'.posts ≡ 0)
    × (posts_of new t'.posts ≡ posts_of new t.posts + posts_of old t.posts)
    × (contains old t'.following ≡ false)
    × (t'.dismissals ≡ t.dismissals)
rename_account-moves_example =
    rename_account-moves (codes "ann") (codes "anna") renamed (λ e. ground (arith, e))

store_following-guards_example :
    let shrink : ℕ = 70 in
    let f : Following = three in
    let usernames : List Text = codes "a" ∷ [] in
    let now : ℕ = 500 in
    Guarded shrink f usernames now (store_following shrink f usernames false now)
store_following-guards_example = store_following-guards 70 three (codes "a" ∷ []) 500
