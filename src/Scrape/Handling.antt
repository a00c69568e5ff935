-- ===== src/Scrape/Handling.antt =====
-- _check_permalink() and _handle_card() of app/instadroid/scrape.py, and the part of _FeedRun that
-- they change.
use instadroid.Prelude.{
  ℕ, ◌+◌, ◌-◌, not, ◌&&◌, ◌||◌, Option, none, some, List, [], ◌∷◌, ◌++◌, ltb, if◌then◌else◌, Text,
  codes, text_eq, contains, keep,
}
use instadroid.Db.Posts.{StoredPost, truthy, by_id}
use instadroid.Db.Merge.{remember_hash}
use instadroid.Db.Renames.{count}
use instadroid.Capture.Permalink.{permalink_code}
use instadroid.Feed.Cards.{Post, is_empty}
use instadroid.Retention.Pruning.{file_of, discard_media}
use instadroid.Scrape.Storing.{
  Given, Answers, Saved, Stored, as_new, merged, skipped, post_id, fetch_permalink, find_stored,
  backfill_permalink, needs_permalink, expand, store_post,
}
use instadroid.Capture.Copying.{Fail}

-- _FeedRun: `link_failures` and `fail_reasons` list a key once for each count; `suspected` are the
-- calls of note_rename_candidate(), with the post.
pub record FeedRun : Type 0 where
  pub this_run : List Text
  pub seen_streak : ℕ
  pub backfills_left : ℕ
  pub link_failures : List Text
  pub fail_reasons : List Fail
  pub suspected : List (Text × (Text × Text))
  pub new : ℕ

pub data CardResult : Type 0 where
  next_card : CardResult
  redump : CardResult

pub data LinkCheck : Type 0 where
  free : LinkCheck
  stale : LinkCheck
  stored : LinkCheck

-- PERMALINK_RETRIES and PERMALINK_BACKFILL_TRIES
pub record Limits : Type 0 where
  pub retries : ℕ
  pub backfill_tries : ℕ

-- what a card leaves: the tables and files, the run, and what the walk does next
pub record Handled : Type 0 where
  pub saved : Saved
  pub run : FeedRun
  pub result : CardResult

count_reason : Option Fail → FeedRun → FeedRun
count_reason none run = run
count_reason (some r) run = record run { fail_reasons = r ∷ run.fail_reasons }

-- the hash is in this_run
unfoldable pub handled : Text → FeedRun → FeedRun
handled h run = record run { this_run = h ∷ run.this_run }

unfoldable pub discard : Text → FeedRun → FeedRun
discard h run = record run { this_run = keep (λ x. not (text_eq x h)) run.this_run }

-- a card that was captured before
unfoldable pub seen_again : FeedRun → FeedRun
seen_again run = record run { seen_streak = run.seen_streak + 1 }

suspect : Text → Text → Text → FeedRun → FeedRun
suspect old new pid run = record run { suspected = run.suspected ++ (old, (new, pid)) ∷ [] }

-- how the counters follow what _store_post() did
unfoldable pub after_store : Stored → FeedRun → FeedRun
after_store as_new run = record run { new = run.new + 1; seen_streak = 0 }
after_store merged run = record run { seen_streak = 1 }
after_store skipped run = record run { seen_streak = 0 }

-- _check_permalink()
unfoldable pub check_permalink :
    Answers
    → Post
    → Text
    → Text
    → List StoredPost
    → FeedRun
    → LinkCheck × (List StoredPost × FeedRun)
unfolding suspect
check_permalink a p h pid posts run = elim (by_id pid posts) [
  | none ↦ (free, (posts, run))
  | some row ↦
      (let other = not (is_empty row.username) && not (text_eq row.username p.username) in
        if other && not a.certain then (stale, (posts, run)) else (
          stored,
          (
            remember_hash pid h posts,
            seen_again
                (if other && not a.shared then suspect row.username p.username pid run else run),
          ),
        ))
]

module _ (g : Given) (limits : Limits) (since : Option ℕ) (ig_version : Option Text) where
  -- a card that is stored already
  unfoldable pub handle_stored : Answers → Text → StoredPost → Saved → FeedRun → Handled
  unfolding count_reason
  handle_stored a h row s run =
      let run' = seen_again (handled h run) in
      if ltb 0 run.backfills_left && needs_permalink limits.backfill_tries row
      then (let (posts, reason) = backfill_permalink g a row s.posts in
          (record {
            saved = record s { posts = posts };
            run = count_reason reason (record run' { backfills_left = run.backfills_left - 1 });
            result = redump;
          }))
      else record { saved = s; run = run'; result = next_card }

  -- the store, under the id and the link that the check left
  unfoldable pub handle_free :
      Answers → Post → Text → Text → Option Text → Saved → FeedRun → Option Handled
  handle_free a p h pid url s run =
      let p' = expand g a p in
      elim (store_post g since a p' h pid url ig_version s) [
        | none ↦ none
        | some (s', outcome) ↦ some (record {
          saved = s';
          run = after_store outcome (handled (post_id g p') run);
          result = redump;
        })
      ]

  -- the permalink's id looked up, then the store
  unfoldable pub handle_link :
      Answers → Post → Text → Option Text → Saved → FeedRun → Option Handled
  handle_link a p h none s run = handle_free a p h h none s run
  handle_link a p h (some []) s run = handle_free a p h h (some []) s run
  handle_link a p h (some (c ∷ u)) s run =
      let pid = permalink_code g.wide_word (c ∷ u) in
      let (link, after) = check_permalink a p h pid s.posts run in
      elim link [
        | free ↦ handle_free a p h pid (some (c ∷ u)) s run
        | stale ↦ handle_free a p h h none s run
        | stored ↦ some (record {
          saved = record s {
            posts = after.0;
            disk = discard_media (file_of a.media ++ a.slides) s.disk;
          };
          run = after.1;
          result = redump;
        })
      ]

  -- capture_carousel() is called for the media of a carousel only
  unfoldable pub with_slides : Post → Answers → Answers
  with_slides p a = record a {
    slides = if truthy a.media && text_eq p.kind (codes "carousel") then a.slides else [];
  }

  -- a card that is not: cropped, its link copied, then stored
  unfoldable pub handle_new : Answers → Post → Text → Saved → FeedRun → Option Handled
  unfolding count_reason
  handle_new a p h s run =
      let cropped : Saved = record s { disk = file_of a.media ++ a.slides ++ s.disk } in
      let (url, reason) = fetch_permalink g s.posts (some p) a.link a.failed in
      let counted = count_reason reason run in
      let entered = handled h counted in
      let left = if a.left_feed then discard h entered else entered in
      let done = handle_link a p h url cropped left in
      if not (truthy url) && ltb (count h run.link_failures) limits.retries
      then some (record {
        saved = record s { disk = discard_media (file_of a.media ++ a.slides) cropped.disk };
        run = record counted { link_failures = h ∷ run.link_failures };
        result = redump;
      })
      else done

  unfoldable pub handle_found :
      Answers → Post → Text → Option StoredPost → Saved → FeedRun → Option Handled
  handle_found a p h (some row) s run = some (handle_stored a h row s run)
  handle_found a p h none s run = handle_new (with_slides p a) p h s run

  -- _handle_card(); none is the IntegrityError of an insert
  unfoldable pub handle_card : Answers → Post → Saved → FeedRun → Option Handled
  handle_card a p s run =
      let h = post_id g p in
      let (row, posts) = find_stored g since p h s.posts in
      let found : Saved = record s { posts = posts } in
      let done = handle_found a p h row found run in
      if contains h run.this_run || not p.complete
      then some (record { saved = s; run = run; result = next_card })
      else done
