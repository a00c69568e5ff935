-- ===== src/Db/Finding.antt =====
-- find_duplicate() of app/instadroid/db.py finds what same_post() accepts, and nothing else.
use instadroid.Prelude.{
  ℕ, ◌≡◌, refl, Bool, true, false, Option, none, some, List, [], ◌∷◌, arith, Text, keep, find?,
  find?-sound,
}
use instadroid.Parsing.Identity.{PostIdentity, same_post, apart, times_agree, tolerance}
use instadroid.Db.Posts.{
  StoredPost, identity, is_excluded, in_window, window_of, candidate_row, is_duplicate, find_dated,
}

abbrev pub sighting : Text → ℕ → Option ℕ → Option Text → PostIdentity
sighting username posted_at precision caption = record {
  username = username;
  caption = caption;
  posted_at = some posted_at;
  precision = precision;
}

-- the SQL window holds every time that the tolerance accepts
in_window_of_close :
    (t : Option ℕ) (middle : ℕ) (precision : Option ℕ)
    → times_agree t (some middle) (tolerance precision) ≡ true
    → in_window middle (window_of precision) t ≡ true
unfolding times_agree tolerance in_window window_of apart
in_window_of_close none middle precision h = cc
in_window_of_close (some t) middle precision h = ground arith

module _ (weak : Text → Bool) (username : Text) (posted_at : ℕ) (precision : Option ℕ)
    (caption exclude : Option Text) where
  candidate_of_duplicate :
      (p : StoredPost)
      → is_duplicate weak (sighting username posted_at precision caption) exclude p ≡ true
      → candidate_row username posted_at precision p ≡ true
  unfolding is_duplicate candidate_row same_post identity
  candidate_of_duplicate p h = ground (arith, in_window_of_close p.posted_at posted_at precision)

  find?-keep-some {ℓ} :
      {A : Type ℓ} (f g : A → Bool) (xs : List A)
      → ((x : A) → f x ≡ true → g x ≡ true)
      → find? f (keep g xs) ≡ find? f xs
  unfolding find? keep
  find?-keep-some f g [] h = refl
  find?-keep-some f g (x ∷ xs) h = ground (arith, h x, find?-keep-some f g xs h)

  -- The coarse time window of the query never hides a row that same_post() would accept: with or
  -- without the window, the search for a dated card finds the same row.
  pub find_dated-eq-find? :
      (posts : List StoredPost)
      → find_dated weak posts username posted_at precision caption exclude
        ≡ find? (is_duplicate weak (sighting username posted_at precision caption) exclude) posts
  unfolding find_dated
  find_dated-eq-find? posts = find?-keep-some _ _ posts candidate_of_duplicate

  -- What it finds is another sighting of the card by same_post(), and never the excluded row.
  pub find_dated_sound :
      (posts : List StoredPost) (p : StoredPost)
      → find_dated weak posts username posted_at precision caption exclude ≡ some p
      → (same_post weak (identity p) (sighting username posted_at precision caption) ≡ true)
        × (is_excluded exclude p ≡ false)
  unfolding find_dated is_duplicate
  find_dated_sound posts p h = let found = find?-sound _ _ p h in ground (arith, found)
