-- ===== src/Db/Posts.antt =====
-- app/instadroid/db.py: the posts table, finding a stored post again, and merging a second sighting.
-- The table is the list of its rows in the order of its rowids; `id` is its primary key. Times are
-- whole seconds; a time that is missing or cannot be read is none. `weak` is is_weak_caption().
use instadroid.Prelude.{
  ℕ, ◌+◌, ◌-◌, ◌*◌, max, Bool, true, false, not, ◌&&◌, ◌||◌, Option, none, some, is_some, List, [],
  ◌∷◌, ◌++◌, leb, ltb, if◌then◌else◌, Text, text_eq, keep, find?, any, length,
}
use instadroid.Parsing.Identity.{PostIdentity, prefix, same_post, flat_caption, or_empty, or_zero}

-- StoredPost, with the permalink_attempts column
pub record StoredPost : Type 0 where
  pub id : Text
  pub username : Text
  pub kind : Option Text
  pub posted_date : Option Text
  pub caption : Option Text
  pub media_file : Option Text
  pub scraped_at : ℕ
  pub hash : Option Text
  pub alt_hash : Option Text
  pub url : Option Text
  pub place : Option Text
  pub posted_at : Option ℕ
  pub updated_at : Option ℕ
  pub ig_version : Option Text
  pub permalink_attempts : ℕ

-- Python's truth of a nullable text: neither None nor ""
unfoldable pub truthy : Option Text → Bool
truthy none = false
truthy (some []) = false
truthy (some (c ∷ s)) = true

-- `a or b` on nullable texts
unfoldable pub or_text : Option Text → Option Text → Option Text
or_text a b = if truthy a then a else b

-- a row that shares an id
unfoldable pub has_id : Text → StoredPost → Bool
has_id i p = text_eq p.id i

-- SELECT * FROM posts WHERE id=?
unfoldable pub by_id : Text → List StoredPost → Option StoredPost
by_id i posts = find? (has_id i) posts

-- DELETE FROM posts WHERE id=?
unfoldable pub delete_id : Text → List StoredPost → List StoredPost
delete_id i posts = keep (λ p. not (has_id i p)) posts

-- UPDATE posts SET ... WHERE id=?
unfoldable pub update_id : Text → (StoredPost → StoredPost) → List StoredPost → List StoredPost
update_id i f [] = []
update_id i f (p ∷ posts) = (if has_id i p then f p else p) ∷ update_id i f posts

-- insert_row() with replace: INSERT OR REPLACE
unfoldable pub insert_or_replace : StoredPost → List StoredPost → List StoredPost
insert_or_replace row posts = delete_id row.id posts ++ row ∷ []

-- insert_row() without: none is SQLite's IntegrityError on a taken id
unfoldable pub insert_row : StoredPost → List StoredPost → Option (List StoredPost)
insert_row row posts = if any (has_id row.id) posts then none else some (posts ++ row ∷ [])

-- the row as same_post() reads it
unfoldable pub identity : StoredPost → PostIdentity
identity p = record {
  username = p.username;
  caption = p.caption;
  posted_at = p.posted_at;
  precision = none;
}

-- `exclude_id and id == exclude_id`
unfoldable pub is_excluded : Option Text → StoredPost → Bool
is_excluded none p = false
is_excluded (some i) p = truthy (some i) && text_eq p.id i

-- `posted_at BETWEEN a - window AND a + window`, false on NULL
unfoldable pub in_window : ℕ → ℕ → Option ℕ → Bool
in_window middle window none = false
in_window middle window (some t) = leb (middle - window) t && leb t (middle + window)

unfoldable pub window_of : Option ℕ → ℕ
window_of precision = max (or_zero precision) 3600 * 2

unfoldable pub candidate_row : Text → ℕ → Option ℕ → StoredPost → Bool
candidate_row username posted_at precision p =
    text_eq p.username username && in_window posted_at (window_of precision) p.posted_at

-- Before another in `ORDER BY url IS NULL, scraped_at`.
unfoldable pub sorts_before : StoredPost → StoredPost → Bool
sorts_before p q =
    if is_some p.url
    then not (is_some q.url) || leb p.scraped_at q.scraped_at
    else not (is_some q.url) && leb p.scraped_at q.scraped_at

insert_sorted : StoredPost → List StoredPost → List StoredPost
insert_sorted p [] = p ∷ []
insert_sorted p (q ∷ qs) = if sorts_before p q then p ∷ q ∷ qs else q ∷ insert_sorted p qs

-- the ORDER BY, by insertion
unfoldable pub ordered : List StoredPost → List StoredPost
unfolding insert_sorted sorts_before
ordered [] = []
ordered (p ∷ posts) = insert_sorted p (ordered posts)

unfoldable pub shows_caption : Text → Option Text → StoredPost → Bool
shows_caption shown exclude p =
    not (is_excluded exclude p) && text_eq (prefix 200 (flat_caption p.caption)) (prefix 200 shown)

-- the WHERE of _find_same_caption(); `since` is retain_cutoff(), none for ""
unfoldable pub recent_of : Text → Option ℕ → StoredPost → Bool
recent_of username since p =
    text_eq p.username username && elim since [ none ↦ true | some t ↦ leb t p.scraped_at ]

module _ (weak : Text → Bool) where
  unfoldable pub find_same_caption :
      List StoredPost → Option ℕ → Text → Option Text → Option Text → Option StoredPost
  find_same_caption posts since username caption exclude =
      let shown = flat_caption caption in
      if weak (or_empty caption) || ltb (length shown) 40
      then none
      else find? (shows_caption shown exclude) (ordered (keep (recent_of username since) posts))

  unfoldable pub is_duplicate : PostIdentity → Option Text → StoredPost → Bool
  is_duplicate candidate exclude p =
      not (is_excluded exclude p) && same_post weak (identity p) candidate

  -- a card that shows a time
  unfoldable pub find_dated :
      List StoredPost → Text → ℕ → Option ℕ → Option Text → Option Text → Option StoredPost
  find_dated posts username posted_at precision caption exclude =
      let candidate : PostIdentity = record {
        username = username;
        caption = caption;
        posted_at = some posted_at;
        precision = precision;
      } in
      find? (is_duplicate candidate exclude)
        (keep (candidate_row username posted_at precision) posts)

  unfoldable pub find_duplicate :
      List StoredPost
      → Option ℕ
      → Text
      → Option ℕ
      → Option ℕ
      → Option Text
      → Option Text
      → Option StoredPost
  find_duplicate posts since username none precision caption exclude =
      find_same_caption posts since username caption exclude
  find_duplicate posts since username (some posted_at) precision caption exclude =
      find_dated posts username posted_at precision caption exclude
