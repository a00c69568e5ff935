-- ===== src/Db/Merging.antt =====
-- What merging a second sighting into a stored post keeps, gains and throws away.
use instadroid.Prelude.{
  ℕ, ◌≡◌, ◌≢◌, refl, ◌⊎◌, inl, inr, Bool, true, false, not, ◌&&◌, ◌||◌, Option, none, some, or_else,
  List, [], ◌∷◌, arith, if◌then◌else◌, Text, text_eq, text_eq_iff, opt_eq_iff, Bool-cases,
}
use instadroid.Db.Posts.{StoredPost, truthy, or_text, by_id, delete_id}
use instadroid.Db.Merge.{
  first_other, merged_media, dropped_media, merged_caption, merged_fields, write_merged,
}
use instadroid.Db.Rows.{
  by_id-delete_id, by_id-insert_or_replace, IsKeyed, insert_or_replace-IsKeyed, delete_id-IsKeyed,
}

truthy-none : truthy none ≡ false
unfolding truthy
truthy-none = refl

or_text_idem : (a b : Option Text) → or_text (or_text a b) b ≡ or_text a b
unfolding or_text
or_text_idem a b = ground arith

merged_media_idem : (a b : Option Text) → merged_media (merged_media a b) b ≡ merged_media a b
unfolding merged_media
merged_media_idem a b = ground arith

merged_caption_idem :
    (weak : Text → Bool) (a b : Option Text)
    → merged_caption weak (merged_caption weak a b) b ≡ merged_caption weak a b
unfolding merged_caption
merged_caption_idem weak a b = ground arith

or_else_idem : (a b : Option ℕ) → or_else (or_else a b) b ≡ or_else a b
or_else_idem none none = refl
or_else_idem none (some b) = refl
or_else_idem (some a) b = refl

first_other_idem :
    (h a b c : Option Text)
    → first_other h (a ∷ h ∷ first_other h (a ∷ b ∷ c ∷ []) ∷ []) ≡ first_other h (a ∷ b ∷ c ∷ [])
unfolding first_other
first_other_idem h a b c =
    ground (arith, opt_eq_iff h h, opt_eq_iff a h, opt_eq_iff b h, opt_eq_iff c h)

merged_id_idem :
    (old_url new_url : Option Text) (a b : Text)
    → (if truthy new_url && not (truthy (or_text old_url new_url))
        then b
        else if truthy new_url && not (truthy old_url)
        then b
        else a)
      ≡ (if truthy new_url && not (truthy old_url) then b else a)
unfolding or_text
merged_id_idem old_url new_url a b = ground arith

module _ (weak : Text → Bool) (old new : StoredPost) (now : ℕ) where
  -- The file that a merge deletes is the new sighting's and not the one that the merged row names;
  -- a captured file that is not deleted is named by the row, or nothing was captured.
  pub merged_fields-media :
      let (row, dropped) = merged_fields weak old new now in
      ((f : Text)
        → dropped ≡ some f
        → (new.media_file ≡ some f) × (row.media_file ≡ old.media_file) × (row.media_file ≢ some f))
      × (dropped ≡ none → truthy new.media_file ≡ true → row.media_file ≡ new.media_file)
  unfolding merged_fields merged_media dropped_media
  merged_fields-media = (
    λ f e. (
      ground arith,
      ground arith,
      λ same. ground (arith, opt_eq_iff new.media_file old.media_file),
    ),
    λ e captured. ground (arith, opt_eq_iff new.media_file old.media_file, truthy-none),
  )

  -- A permalink is never lost and one is gained if either sighting has it; the id changes only when
  -- the merge gains it. The author, the time first seen and a time already known stay.
  merged_fields-keeps :
      let row = (merged_fields weak old new now).0 in
      (truthy row.url ≡ (truthy old.url || truthy new.url))
      × (truthy old.url ≡ true → (row.url ≡ old.url) × (row.id ≡ old.id))
      × (row.id ≢ old.id → (truthy new.url ≡ true) × (row.url ≡ new.url) × (row.id ≡ new.id))
      × (row.username ≡ old.username)
      × (row.scraped_at ≡ old.scraped_at)
      × ((t : ℕ) → old.posted_at ≡ some t → row.posted_at ≡ some t)
  unfolding merged_fields or_text
  merged_fields-keeps = (
    ground arith,
    λ h. (ground arith, ground arith),
    λ h. (ground arith, ground arith, ground arith),
    refl,
    refl,
    λ t e. ground arith,
  )

  -- The merged row has the hash of the new sighting, and a second hash is never that one again. Where
  -- the sighting brings no second hash, the hash that the old row had is still one of the two.
  merged_fields-hashes :
      let row = (merged_fields weak old new now).0 in
      (row.hash ≡ new.hash)
      × ((truthy row.alt_hash ≡ true) → row.alt_hash ≢ row.hash)
      × (truthy new.alt_hash ≡ false
          → truthy old.hash ≡ true
          → (row.hash ≡ old.hash) ⊎ (row.alt_hash ≡ old.hash))
  unfolding merged_fields first_other
  merged_fields-hashes = (
    refl,
    λ h e. ground (
      arith,
      opt_eq_iff new.alt_hash new.hash,
      opt_eq_iff old.hash new.hash,
      opt_eq_iff old.alt_hash new.hash,
      truthy-none,
    ),
    λ h k. ground (arith, opt_eq_iff old.hash new.hash),
  )

  -- Merging the same sighting in a second time changes nothing.
  pub merged_fields_idem :
      (merged_fields weak (merged_fields weak old new now).0 new now).0
      ≡ (merged_fields weak old new now).0
  unfolding merged_fields
  merged_fields_idem = λ i. record {
    id = merged_id_idem old.url new.url old.id new.id i;
    username = old.username;
    kind = or_text_idem old.kind new.kind i;
    posted_date = or_text_idem old.posted_date new.posted_date i;
    caption = merged_caption_idem weak old.caption new.caption i;
    media_file = merged_media_idem old.media_file new.media_file i;
    scraped_at = old.scraped_at;
    hash = new.hash;
    alt_hash = first_other_idem new.hash new.alt_hash old.hash old.alt_hash i;
    url = or_text_idem old.url new.url i;
    place = or_text_idem old.place new.place i;
    posted_at = or_else_idem old.posted_at new.posted_at i;
    updated_at = some now;
    ig_version = or_text_idem old.ig_version new.ig_version i;
    permalink_attempts = 0;
  }

-- After a merge is written, the merged row stands under its id and nothing under the id it replaced;
-- every other id has the row that it had.
write_merged-by_id :
    (old_id : Text) (row : StoredPost) (posts : List StoredPost) (j : Text)
    → by_id j (write_merged old_id row posts)
      ≡ (if text_eq row.id j then some row else if text_eq old_id j then none else by_id j posts)
unfolding write_merged
write_merged-by_id old_id row posts j = ground (
  arith,
  by_id-insert_or_replace row j posts,
  by_id-insert_or_replace row j (delete_id old_id posts),
  by_id-delete_id old_id j posts,
  text_eq_iff row.id old_id,
  text_eq_iff row.id j,
  text_eq_iff old_id j,
)

pub write_merged-IsKeyed :
    (old_id : Text) (row : StoredPost) (posts : List StoredPost)
    → IsKeyed posts
    → IsKeyed (write_merged old_id row posts)
unfolding write_merged
write_merged-IsKeyed old_id row posts h = elim (Bool-cases (text_eq row.id old_id)) [
  | inl same ↦ rw same (insert_or_replace-IsKeyed row posts h)
  | inr other ↦ rw other (insert_or_replace-IsKeyed row _ (delete_id-IsKeyed old_id posts h))
]
