-- ===== src/Retention/Pruning.antt =====
-- app/instadroid/retention.py over the posts, media and stories tables and the file names in MEDIA_DIR.
-- Times are whole seconds, sizes bytes. The size of a file, and whether its name ends in one of
-- MEDIA_EXTS, are parameters: the file system's, and the setting's.
use instadroid.Prelude.{
  ℕ, ◌+◌, ◌-◌, ◌*◌, Bool, not, ◌||◌, Option, none, some, List, [], ◌∷◌, ◌++◌, leb, ltb, ◌==◌,
  if◌then◌else◌, Text, text_eq, contains, keep, any,
}
use instadroid.Db.Posts.{StoredPost}

pub record Slide : Type 0 where
  pub post_id : Text
  pub idx : ℕ
  pub file : Text

-- `kind` is always "story"; `phash` is the number whose hexadecimal digits are stored.
pub record Story : Type 0 where
  pub id : Text
  pub username : Text
  pub media_file : Option Text
  pub posted_date : Option Text
  pub scraped_at : ℕ
  pub phash : Option ℕ

pub record Store : Type 0 where
  pub posts : List StoredPost
  pub slides : List Slide
  pub stories : List Story
  pub disk : List Text

-- retain_cutoff(): none for ""
unfoldable pub retain_cutoff : ℕ → ℕ → Option ℕ
retain_cutoff retain_days now = if retain_days == 0 then none else some (now - retain_days * 86400)

-- COALESCE(posted_at, scraped_at)
unfoldable pub age_of : StoredPost → ℕ
age_of p = elim p.posted_at [ none ↦ p.scraped_at | some t ↦ t ]

unfoldable pub is_expired : ℕ → StoredPost → Bool
is_expired cutoff p = ltb (age_of p) cutoff

-- the one text of a cell, if it is not empty or NULL
unfoldable pub file_of : Option Text → List Text
file_of none = []
file_of (some []) = []
file_of (some (c ∷ s)) = (c ∷ s) ∷ []

unfoldable pub covers : List StoredPost → List Text
covers [] = []
covers (p ∷ posts) = file_of p.media_file ++ covers posts

unfoldable pub slide_files : List Slide → List Text
slide_files [] = []
slide_files (m ∷ slides) = m.file ∷ slide_files slides

unfoldable pub story_files : List Story → List Text
story_files [] = []
story_files (s ∷ stories) = file_of s.media_file ++ story_files stories

-- a slide of one of these posts
unfoldable pub is_slide_of : List StoredPost → Slide → Bool
is_slide_of posts m = any (λ p. text_eq p.id m.post_id) posts

-- discard_media()
unfoldable pub discard_media : List Text → List Text → List Text
discard_media files disk = keep (λ f. not (contains f files)) disk

-- the removal of some posts with their slides and files
unfoldable pub remove_posts : (StoredPost → Bool) → Store → Store
remove_posts gone s =
    let out = keep gone s.posts in
    let out_slides = keep (is_slide_of out) s.slides in
    record s {
      posts = keep (λ p. not (gone p)) s.posts;
      slides = keep (λ m. not (is_slide_of out m)) s.slides;
      disk = discard_media (covers out ++ slide_files out_slides) s.disk;
    }

-- the age-based part of prune_old_posts()
unfoldable pub prune_expired : Option ℕ → Store → Store
prune_expired none s = s
prune_expired (some cutoff) s = remove_posts (is_expired cutoff) s

unfoldable pub referenced : Store → List Text
referenced s = covers s.posts ++ slide_files s.slides

module _ (is_media : Text → Bool) where
  -- _sweep_orphans()
  unfoldable pub sweep_orphans : Store → Store
  sweep_orphans s = record s {
    disk = keep (λ f. not (is_media f) || contains f (referenced s)) s.disk;
  }

insert_by_age : StoredPost → List StoredPost → List StoredPost
insert_by_age p [] = p ∷ []
insert_by_age p (q ∷ qs) = if leb (age_of p) (age_of q) then p ∷ q ∷ qs else q ∷ insert_by_age p qs

-- ORDER BY COALESCE(posted_at, scraped_at)
unfoldable pub oldest_first : List StoredPost → List StoredPost
unfolding insert_by_age
oldest_first [] = []
oldest_first (p ∷ posts) = insert_by_age p (oldest_first posts)

-- _post_files(), each name once
unfoldable pub distinct : List Text → List Text
distinct [] = []
distinct (f ∷ fs) = let rest = distinct fs in if contains f rest then rest else f ∷ rest

unfoldable pub post_files : List Slide → StoredPost → List Text
post_files slides p =
    distinct (file_of p.media_file ++ slide_files (keep (λ m. text_eq m.post_id p.id) slides))

module _ (size_of : Text → ℕ) where
  unfoldable pub total : List Text → ℕ
  total [] = 0
  total (f ∷ fs) = size_of f + total fs

  -- the loop of _enforce_size_cap(): the ids and the files chosen, and the size that is left
  pub record Chosen : Type 0 where
    pub removed : List Text
    pub files : List Text
    pub size : ℕ

  -- one post more, with the files of it that no chosen post has
  unfoldable pub chosen_with : List Slide → StoredPost → Chosen → Chosen
  chosen_with slides p c =
      let fresh = keep (λ f. not (contains f c.files)) (post_files slides p) in
      record { removed = p.id ∷ c.removed; files = fresh ++ c.files; size = c.size - total fresh }

  unfoldable pub choose : ℕ → List Slide → List StoredPost → Chosen → Chosen
  choose cap slides [] c = c
  choose cap slides (p ∷ posts) c =
      let rest = choose cap slides posts (chosen_with slides p c) in
      if ltb cap c.size then rest else c

  -- _enforce_size_cap(), for the measured size; a cap of 0 is off
  unfoldable pub enforce_size_cap : ℕ → ℕ → Store → Store
  enforce_size_cap cap measured s =
      if cap == 0 || leb measured cap
      then s
      else (let c =
            choose cap s.slides (oldest_first s.posts)
              (record { removed = []; files = []; size = measured }) in
          record s {
            posts = keep (λ p. not (contains p.id c.removed)) s.posts;
            slides = keep (λ m. not (contains m.post_id c.removed)) s.slides;
            disk = discard_media c.files s.disk;
          })

  -- prune_old_posts(): `measured` is the size found after the sweep
  unfoldable pub prune_old_posts : (Text → Bool) → ℕ → (Store → ℕ) → Option ℕ → Store → Store
  prune_old_posts is_media cap measured cutoff s =
      let swept = sweep_orphans is_media (prune_expired cutoff s) in
      enforce_size_cap cap (measured swept) swept

unfoldable pub is_old_story : ℕ → Story → Bool
is_old_story cutoff s = ltb s.scraped_at cutoff

-- prune_expired_stories()
unfoldable pub prune_expired_stories : Option ℕ → Store → Store
prune_expired_stories none s = s
prune_expired_stories (some cutoff) s = record s {
  stories = keep (λ x. not (is_old_story cutoff x)) s.stories;
  disk = discard_media (story_files (keep (is_old_story cutoff) s.stories)) s.disk;
}
