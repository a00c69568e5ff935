-- ===== src/Db/Merge.antt =====
-- app/instadroid/db.py: merged_fields(), write_merged() and remember_hash().
use instadroid.Prelude.{
  ℕ, Bool, not, ◌&&◌, Option, none, some, or_else, List, [], ◌∷◌, if◌then◌else◌, Text, text_eq,
  opt_eq,
}
use instadroid.Parsing.Identity.{or_empty}
use instadroid.Db.Posts.{StoredPost, truthy, or_text, delete_id, update_id, insert_or_replace}

-- the first of the texts that is neither empty nor `h`
unfoldable pub first_other : Option Text → List (Option Text) → Option Text
first_other h [] = none
first_other h (t ∷ ts) = if truthy t && not (opt_eq t h) then t else first_other h ts

-- which crop is kept: the existing one wins
unfoldable pub merged_media : Option Text → Option Text → Option Text
merged_media old new = if truthy new && not (truthy old) then new else old

-- which crop is to be deleted
unfoldable pub dropped_media : Option Text → Option Text → Option Text
dropped_media old new = if truthy new && (truthy old && not (opt_eq new old)) then new else none

unfoldable pub merged_caption : (Text → Bool) → Option Text → Option Text → Option Text
merged_caption weak old new = if not (weak (or_empty new)) && weak (or_empty old) then new else old

-- merged_fields(existing, new, now): the row, and the media file to delete
unfoldable pub merged_fields :
    (Text → Bool) → StoredPost → StoredPost → ℕ → StoredPost × Option Text
merged_fields weak old new now = (
  record {
    id = if truthy new.url && not (truthy old.url) then new.id else old.id;
    username = old.username;
    kind = or_text old.kind new.kind;
    posted_date = or_text old.posted_date new.posted_date;
    caption = merged_caption weak old.caption new.caption;
    media_file = merged_media old.media_file new.media_file;
    scraped_at = old.scraped_at;
    hash = new.hash;
    alt_hash = first_other new.hash (new.alt_hash ∷ old.hash ∷ old.alt_hash ∷ []);
    url = or_text old.url new.url;
    place = or_text old.place new.place;
    posted_at = or_else old.posted_at new.posted_at;
    updated_at = some now;
    ig_version = or_text old.ig_version new.ig_version;
    permalink_attempts = 0;
  },
  dropped_media old.media_file new.media_file,
)

-- write_merged(con, old_id, row)
unfoldable pub write_merged : Text → StoredPost → List StoredPost → List StoredPost
write_merged old_id row posts =
    insert_or_replace row (if text_eq row.id old_id then posts else delete_id old_id posts)

-- the UPDATE of remember_hash(), `hash IS NOT ?` included
unfoldable pub seen_under : Text → StoredPost → StoredPost
seen_under h p = if opt_eq p.hash (some h) then p else record p { alt_hash = p.hash; hash = some h }

unfoldable pub remember_hash : Text → Text → List StoredPost → List StoredPost
remember_hash post_id h posts = update_id post_id (seen_under h) posts
