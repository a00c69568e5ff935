-- ===== src/Scrape/Keyed.antt =====
-- The primary key of the posts table through app/instadroid/scrape.py's handling of a card.
use instadroid.Prelude.{
  ℕ, refl, Bool, true, false, Option, none, some, List, [], ◌∷◌, arith, if◌then◌else◌, Text, any,
  Bool-cases, Option-cases, inl, inr,
}
use instadroid.Db.Posts.{StoredPost, has_id, insert_row, find_duplicate}
use instadroid.Db.Merge.{merged_fields, remember_hash, seen_under}
use instadroid.Db.Rows.{IsKeyed, insert_row-IsKeyed, update_id-IsKeyed}
use instadroid.Db.Merging.{write_merged-IsKeyed}
use instadroid.Capture.Permalink.{permalink_code}
use instadroid.Feed.Cards.{Post}
use instadroid.Scrape.Storing.{
  Given, second_of, Answers, Saved, Stored, post_id, find_stored, shown, tried, linked, link_stored,
  backfill_permalink, expand, store_new, store_post, new_row, final_names,
}
use instadroid.Scrape.Handling.{
  FeedRun, Limits, Handled, check_permalink, handle_free, handle_link, handle_new, handle_found,
  handle_card, handle_stored,
}

remember_hash-IsKeyed :
    (i h : Text) (posts : List StoredPost) → IsKeyed posts → IsKeyed (remember_hash i h posts)
unfolding remember_hash seen_under
remember_hash-IsKeyed i h posts k = update_id-IsKeyed i (seen_under h) (λ p. ground arith) posts k

link_stored-IsKeyed :
    (g : Given) (i : Text) (url : Option Text) (now : ℕ) (posts : List StoredPost)
    → IsKeyed posts
    → IsKeyed (link_stored g i url now posts)
unfolding link_stored linked
link_stored-IsKeyed g i none now posts k = k
link_stored-IsKeyed g i (some url) now posts k =
    ground (arith, update_id-IsKeyed i (linked url now) (λ p. refl) posts k)

backfill_permalink-IsKeyed :
    (g : Given) (a : Answers) (row : StoredPost) (posts : List StoredPost)
    → IsKeyed posts
    → IsKeyed (backfill_permalink g a row posts).0
unfolding backfill_permalink tried
backfill_permalink-IsKeyed g a row posts k =
    link_stored-IsKeyed g row.id _ a.now _ (update_id-IsKeyed row.id tried (λ p. refl) posts k)

find_stored-IsKeyed :
    (g : Given) (since : Option ℕ) (p : Post) (h : Text) (posts : List StoredPost)
    → IsKeyed posts
    → IsKeyed (find_stored g since p h posts).1
unfolding find_stored
find_stored-IsKeyed g since p h posts k =
    elim (Option-cases
      (find_duplicate g.weak posts since p.username none none (some (shown p)) none)) [
        | inl e ↦ ground (arith, e, k)
        | inr (row, e) ↦ ground (arith, e, k, remember_hash-IsKeyed row.id h posts k)
      ]

check_permalink-IsKeyed :
    (a : Answers) (p : Post) (h pid : Text) (posts : List StoredPost) (run : FeedRun)
    → IsKeyed posts
    → IsKeyed (check_permalink a p h pid posts run).1.0
unfolding check_permalink
check_permalink-IsKeyed a p h pid posts run k = ground (arith, remember_hash-IsKeyed pid h posts k)

-- what the insert or the merge leaves, if it leaves anything
KeyedSaved : Option (Saved × Stored) → Type 0
KeyedSaved none = Unit
KeyedSaved (some (s, o)) = IsKeyed s.posts

store_new-IsKeyed :
    (g : Given) (row : StoredPost) (h : Text) (extra : List Text) (s : Saved)
    → IsKeyed s.posts
    → KeyedSaved (store_new g row h extra s)
unfolding store_new insert_row KeyedSaved
store_new-IsKeyed g row h extra s k =
    let named = record row {
      media_file = (final_names g h row.id row.media_file extra s.disk).0;
    } in
    elim (Bool-cases (any (has_id row.id) s.posts)) [
      | inl taken ↦ ground (arith, taken)
      | inr absent ↦ ground (arith, absent, insert_row-IsKeyed named s.posts absent k)
    ]

store_post-IsKeyed :
    (g : Given) (since : Option ℕ) (a : Answers) (p : Post) (h pid : Text) (url ig : Option Text)
    (s : Saved)
    → IsKeyed s.posts
    → KeyedSaved (store_post g since a p h pid url ig s)
unfolding store_post new_row KeyedSaved
store_post-IsKeyed g since a p h pid url ig s k =
    let row = new_row g a p h pid url a.media ig in
    elim (Option-cases (
      find_duplicate g.weak s.posts since p.username row.posted_at (second_of a.posted) row.caption
        none)) [
          | inl e ↦ ground (arith, e, k, store_new-IsKeyed g row h a.slides s k)
          | inr (dup, e) ↦ ground (
            arith,
            e,
            write_merged-IsKeyed dup.id (merged_fields g.weak dup row a.now).0 s.posts k,
          )
        ]

-- what a card leaves, if it leaves anything
abbrev pub KeyedAfter : Option Handled → Type 0
KeyedAfter none = Unit
KeyedAfter (some r) = IsKeyed r.saved.posts

handle_free-IsKeyed :
    (g : Given) (l : Limits) (since : Option ℕ) (ig : Option Text) (a : Answers) (p : Post)
    (h pid : Text) (url : Option Text) (s : Saved) (run : FeedRun)
    → IsKeyed s.posts
    → KeyedAfter (handle_free g l since ig a p h pid url s run)
unfolding handle_free KeyedSaved
handle_free-IsKeyed g l since ig a p h pid url s run k =
    elim (Option-cases (store_post g since a (expand g a p) h pid url ig s)) [
      | inl e ↦ ground (arith, e)
      | inr (r, e) ↦ ground (arith, e, store_post-IsKeyed g since a (expand g a p) h pid url ig s k)
    ]

handle_link-IsKeyed :
    (g : Given) (l : Limits) (since : Option ℕ) (ig : Option Text) (a : Answers) (p : Post)
    (h : Text) (url : Option Text) (s : Saved) (run : FeedRun)
    → IsKeyed s.posts
    → KeyedAfter (handle_link g l since ig a p h url s run)
unfolding handle_link
handle_link-IsKeyed g l since ig a p h none s run k =
    handle_free-IsKeyed g l since ig a p h h none s run k
handle_link-IsKeyed g l since ig a p h (some []) s run k =
    handle_free-IsKeyed g l since ig a p h h (some []) s run k
handle_link-IsKeyed g l since ig a p h (some (c ∷ u)) s run k =
    let pid = permalink_code g.wide_word (c ∷ u) in
    ground (
      arith,
      handle_free-IsKeyed g l since ig a p h pid (some (c ∷ u)) s run k,
      handle_free-IsKeyed g l since ig a p h h none s run k,
      check_permalink-IsKeyed a p h pid s.posts run k,
    )

either_keyed :
    (b : Bool) (x : Handled) (o : Option Handled)
    → IsKeyed x.saved.posts
    → KeyedAfter o
    → KeyedAfter (if b then some x else o)
either_keyed true x o i j = i
either_keyed false x o i j = j

handle_found-IsKeyed :
    (g : Given) (l : Limits) (since : Option ℕ) (ig : Option Text) (a : Answers) (p : Post)
    (h : Text) (row : Option StoredPost) (s : Saved) (run : FeedRun)
    → IsKeyed s.posts
    → KeyedAfter (handle_found g l since ig a p h row s run)
unfolding handle_found handle_stored handle_new
handle_found-IsKeyed g l since ig a p h (some row) s run k =
    ground (arith, k, backfill_permalink-IsKeyed g a row s.posts k)
handle_found-IsKeyed g l since ig a p h none s run k =
    either_keyed _ _ _ k (handle_link-IsKeyed g l since ig _ p h _ _ _ k)

-- Where the ids of the posts table are unique they still are after a card, whatever the device answers.
pub handle_card-IsKeyed :
    (g : Given) (l : Limits) (since : Option ℕ) (ig : Option Text) (a : Answers) (p : Post)
    (s : Saved) (run : FeedRun)
    → IsKeyed s.posts
    → KeyedAfter (handle_card g l since ig a p s run)
unfolding handle_card
handle_card-IsKeyed g l since ig a p s run k = either_keyed _ _ _ k (
    handle_found-IsKeyed g l since ig a p (post_id g p)
      (find_stored g since p (post_id g p) s.posts).0 _ run
      (find_stored-IsKeyed g since p (post_id g p) s.posts k))
