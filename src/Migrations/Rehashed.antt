-- ===== src/Migrations/Rehashed.antt =====
-- The hashes that _migrate_rehash() of app/instadroid/db.py writes, against post_id() of
-- app/instadroid/parsing.py.
use instadroid.Prelude.{
  ℕ, ◌≡◌, ap, refl, true, Option, some, [], ◌∷◌, ◌++◌, arith, if◌then◌else◌, Text, opt_eq,
  opt_eq_iff,
}
use instadroid.Parsing.Identity.{or_empty, alt_key, caption_key, post_key}
use instadroid.Feed.Cards.{Post, is_empty}
use instadroid.Db.Posts.{StoredPost}
use instadroid.Scrape.Storing.{Given, shown, post_id, is_seen_as}
use instadroid.Migrations.Steps.{stored_caption_hash, rehashed}

module _ (g : Given) (parse : Text → ℕ → Option (ℕ × ℕ)) (since : Option ℕ) (now : ℕ) where
  key-post_key :
      (username caption alt : Text)
      → g.weak (if is_empty caption then alt else caption) ≡ is_empty caption
      → username
          ++ b'|'
            ∷ (if g.weak (if is_empty caption then alt else caption)
                then alt_key g.wide_digit (if is_empty caption then alt else caption)
                else caption_key (if is_empty caption then alt else caption))
        ≡ post_key g.wide_digit username caption alt
  unfolding post_key is_empty
  key-post_key username [] alt h = rw h refl
  key-post_key username (c ∷ caption) alt h = rw h refl

  stored_caption_hash-post_id :
      (p : Post)
      → g.weak (shown p) ≡ is_empty p.caption
      → stored_caption_hash g parse since now p.username (some (shown p)) ≡ post_id g p
  unfolding stored_caption_hash shown post_id or_empty
  stored_caption_hash-post_id p h = ap g.digest (key-post_key p.username p.caption p.alt h)

  -- A card whose caption says something, or that has none and whose media description is no caption, is
  -- found by its hash among the rehashed posts: a stored post with its user name and the caption that
  -- the card would be stored with is the card's post.
  pub rehashed-is_seen_as :
      (p : Post) (row : StoredPost)
      → row.username ≡ p.username
      → row.caption ≡ some (shown p)
      → g.weak (shown p) ≡ is_empty p.caption
      → is_seen_as (post_id g p) (rehashed g parse since now row) ≡ true
  unfolding rehashed is_seen_as
  rehashed-is_seen_as p row user caption weak =
      let same : stored_caption_hash g parse since now row.username row.caption ≡ post_id g p =
        rw (user, caption) (stored_caption_hash-post_id p weak) in
      let found : opt_eq (some (stored_caption_hash g parse since now row.username row.caption))
            (some (post_id g p))
          ≡ true =
        (opt_eq_iff _ _).1 (ap (λ t. some t) same) in
      ground (arith, found)
