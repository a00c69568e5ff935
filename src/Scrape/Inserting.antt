-- ===== src/Scrape/Inserting.antt =====
-- The inserts of app/instadroid/scrape.py: no card can make one fail on the posts table's primary key.
use instadroid.Prelude.{
  ℕ, ◌≡◌, refl, Bool, true, false, Option, none, some, is_some, List, [], ◌∷◌, arith, if◌then◌else◌,
  Text, find?, any,
}
use instadroid.Db.Posts.{StoredPost, by_id, has_id, insert_row}
use instadroid.Capture.Permalink.{permalink_code}
use instadroid.Feed.Cards.{Post}
use instadroid.Scrape.Storing.{
  Given, Answers, Saved, post_id, find_stored, is_seen_as, expand, store_new, store_post, new_row,
  final_names,
}
use instadroid.Scrape.Handling.{
  FeedRun, Limits, check_permalink, handle_free, handle_link, handle_new, handle_found, handle_card,
  with_slides,
}

either_succeeds :
    {A : Type 0} (b : Bool) (x : A) (o : Option A)
    → is_some o ≡ true
    → is_some (if b then some x else o) ≡ true
either_succeeds true x o h = refl
either_succeeds false x o h = h

insert_row-fresh :
    (row : StoredPost) (posts : List StoredPost)
    → by_id row.id posts ≡ none
    → any (has_id row.id) posts ≡ false
unfolding by_id find? any
insert_row-fresh row [] h = refl
insert_row-fresh row (p ∷ posts) h = ground (arith, insert_row-fresh row posts)

-- a row that is not seen under a hash does not have it for its id
unseen-fresh :
    (h : Text) (posts : List StoredPost) → find? (is_seen_as h) posts ≡ none → by_id h posts ≡ none
unfolding by_id find? is_seen_as has_id
unseen-fresh h [] e = refl
unseen-fresh h (p ∷ posts) e = ground (arith, unseen-fresh h posts)

store_new-IsSome :
    (g : Given) (row : StoredPost) (h : Text) (extra : List Text) (s : Saved)
    → by_id row.id s.posts ≡ none
    → is_some (store_new g row h extra s) ≡ true
unfolding store_new insert_row
store_new-IsSome g row h extra s e = ground (
  arith,
  insert_row-fresh
      (record row { media_file = (final_names g h row.id row.media_file extra s.disk).0 }) s.posts
      e,
)

store_post-IsSome :
    (g : Given) (since : Option ℕ) (a : Answers) (p : Post) (h pid : Text) (url ig : Option Text)
    (s : Saved)
    → by_id pid s.posts ≡ none
    → is_some (store_post g since a p h pid url ig s) ≡ true
unfolding store_post new_row
store_post-IsSome g since a p h pid url ig s e =
    ground (arith, store_new-IsSome g (new_row g a p h pid url a.media ig) h a.slides s e)

handle_free-IsSome :
    (g : Given) (l : Limits) (since : Option ℕ) (ig : Option Text) (a : Answers) (p : Post)
    (h pid : Text) (url : Option Text) (s : Saved) (run : FeedRun)
    → by_id pid s.posts ≡ none
    → is_some (handle_free g l since ig a p h pid url s run) ≡ true
unfolding handle_free
handle_free-IsSome g l since ig a p h pid url s run e =
    ground (arith, store_post-IsSome g since a (expand g a p) h pid url ig s e)

handle_link-IsSome :
    (g : Given) (l : Limits) (since : Option ℕ) (ig : Option Text) (a : Answers) (p : Post)
    (h : Text) (url : Option Text) (s : Saved) (run : FeedRun)
    → by_id h s.posts ≡ none
    → is_some (handle_link g l since ig a p h url s run) ≡ true
unfolding handle_link check_permalink
handle_link-IsSome g l since ig a p h none s run e =
    handle_free-IsSome g l since ig a p h h none s run e
handle_link-IsSome g l since ig a p h (some []) s run e =
    handle_free-IsSome g l since ig a p h h (some []) s run e
handle_link-IsSome g l since ig a p h (some (c ∷ u)) s run e = ground (
  arith,
  handle_free-IsSome g l since ig a p h (permalink_code g.wide_word (c ∷ u)) (some (c ∷ u)) s run,
  handle_free-IsSome g l since ig a p h h none s run e,
)

handle_new-IsSome :
    (g : Given) (l : Limits) (since : Option ℕ) (ig : Option Text) (a : Answers) (p : Post)
    (h : Text) (s : Saved) (run : FeedRun)
    → by_id h s.posts ≡ none
    → is_some (handle_new g l since ig a p h s run) ≡ true
unfolding handle_new
handle_new-IsSome g l since ig a p h s run e =
    either_succeeds _ _ _ (handle_link-IsSome g l since ig a p h _ _ _ e)

-- a card that no row is found for leaves the posts as they are, and its hash is no id of theirs
find_stored-none :
    (g : Given) (since : Option ℕ) (p : Post) (h : Text) (posts : List StoredPost)
    → (find_stored g since p h posts).0 ≡ none
    → by_id h (find_stored g since p h posts).1 ≡ none
unfolding find_stored
find_stored-none g since p h posts e = ground (arith, unseen-fresh h posts)

handle_found-IsSome :
    (g : Given) (l : Limits) (since : Option ℕ) (ig : Option Text) (a : Answers) (p : Post)
    (h : Text) (row : Option StoredPost) (s : Saved) (run : FeedRun)
    → (row ≡ none → by_id h s.posts ≡ none)
    → is_some (handle_found g l since ig a p h row s run) ≡ true
unfolding handle_found
handle_found-IsSome g l since ig a p h (some row) s run e = refl
handle_found-IsSome g l since ig a p h none s run e =
    handle_new-IsSome g l since ig (with_slides g l since ig p a) p h s run (e refl)

-- A card never makes the insert of a post fail on a taken id, whatever the posts table holds and the
-- device answers.
pub handle_card_succeeds :
    (g : Given) (l : Limits) (since : Option ℕ) (ig : Option Text) (a : Answers) (p : Post)
    (s : Saved) (run : FeedRun)
    → is_some (handle_card g l since ig a p s run) ≡ true
unfolding handle_card
handle_card_succeeds g l since ig a p s run =
    let h = post_id g p in
    either_succeeds _ _ _ (
      handle_found-IsSome g l since ig a p h (find_stored g since p h s.posts).0 _ run
        (find_stored-none g since p h s.posts))
