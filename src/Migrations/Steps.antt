-- ===== src/Migrations/Steps.antt =====
-- _safe_parse_posted_at(), _migrate_dedupe(), _migrate_accounts(), _migrate_rehash(),
-- _stored_caption_hash(), _migrate_alt_hash(), _migrate_merge_twins() and _migrate_updated_at() of
-- app/instadroid/db.py. The table's rows are well formed: no row raises. parse_posted_at() is a
-- parameter; the steps on the schema and the search index are not modelled.
use instadroid.Prelude.{
  ℕ, Bool, not, ◌&&◌, Option, none, some, is_some, List, [], ◌∷◌, ◌++◌, leb, ◌==◌, if◌then◌else◌,
  Text, text_eq, opt_eq, keep, any, map,
}
use instadroid.Parsing.Identity.{or_empty, alt_key, caption_key}
use instadroid.Db.Posts.{StoredPost, truthy, by_id, delete_id, find_duplicate}
use instadroid.Db.Merge.{merged_fields, write_merged}
use instadroid.Db.Renames.{Account, insert_account}
use instadroid.Retention.Pruning.{Slide, Store, file_of, discard_media, slide_files}
use instadroid.Scrape.Storing.{Given, first_of, second_of}

-- the rows in the order of their scraped_at
insert_scraped : StoredPost → List StoredPost → List StoredPost
insert_scraped p [] = p ∷ []
insert_scraped p (q ∷ qs) =
    if leb p.scraped_at q.scraped_at then p ∷ q ∷ qs else q ∷ insert_scraped p qs

by_scraped : List StoredPost → List StoredPost
unfolding insert_scraped
by_scraped [] = []
by_scraped (p ∷ posts) = insert_scraped p (by_scraped posts)

unfoldable pub ids_of : List StoredPost → List Text
unfolding by_scraped
ids_of posts = map (λ p. p.id) (by_scraped posts)

-- `posted_date and parse_posted_at(…)`
safe_parse : (Text → ℕ → Option (ℕ × ℕ)) → Option Text → ℕ → Option (ℕ × ℕ)
safe_parse parse none scraped = none
safe_parse parse (some []) scraped = none
safe_parse parse (some (c ∷ date)) scraped = parse (c ∷ date) scraped

unfoldable pub safe_parse_posted_at : (Text → ℕ → Option (ℕ × ℕ)) → StoredPost → Option (ℕ × ℕ)
unfolding safe_parse
safe_parse_posted_at parse p = safe_parse parse p.posted_date p.scraped_at

-- UPDATE OR IGNORE media SET post_id=keeper WHERE post_id=twin: a slide whose (keeper, idx) is taken stays
unfoldable pub move_slides : Text → Text → List Slide → List Slide
move_slides twin keeper slides =
    map
      (λ m.
        if text_eq m.post_id twin
          && not (any (λ x. text_eq x.post_id keeper && (x.idx == m.idx)) slides)
        then record m { post_id = keeper }
        else m)
      slides

module _ (g : Given) (parse : Text → ℕ → Option (ℕ × ℕ)) (since : Option ℕ) (now : ℕ) where
  -- the first loop of _migrate_dedupe()
  unfoldable pub backfilled : StoredPost → StoredPost
  backfilled p =
      if is_some p.posted_at
      then p
      else record p { posted_at = first_of (safe_parse_posted_at parse p) }

  -- a merge of row `p` into `dup`
  unfoldable pub merge_into : StoredPost → StoredPost → Store → Store
  merge_into dup p s =
      let (row, dropped) = merged_fields g.weak dup p now in
      record s {
        posts =
            write_merged dup.id row
              (if text_eq row.id p.id then s.posts else delete_id p.id s.posts);
        disk = discard_media (file_of dropped) s.disk;
      }

  unfoldable pub dedupe_row : Text → Store → Store
  dedupe_row id s = elim (by_id id s.posts) [
    | none ↦ s
    | some p ↦
        elim (find_duplicate g.weak s.posts since p.username
          (first_of (safe_parse_posted_at parse p)) (second_of (safe_parse_posted_at parse p))
          p.caption (some p.id)) [ none ↦ s | some dup ↦ merge_into dup p s ]
  ]

  unfoldable pub dedupe_rows : List Text → Store → Store
  dedupe_rows [] s = s
  dedupe_rows (id ∷ ids) s = dedupe_rows ids (dedupe_row id s)

  unfoldable pub migrate_dedupe : Store → Store
  migrate_dedupe s =
      let filled : Store = record s { posts = map backfilled s.posts } in
      dedupe_rows (ids_of filled.posts) filled

  unfoldable pub migrate_accounts : List StoredPost → List Account → List Account
  migrate_accounts [] accounts = accounts
  migrate_accounts (p ∷ posts) accounts =
      migrate_accounts posts (insert_account p.username accounts)

  -- _stored_caption_hash()
  unfoldable pub stored_caption_hash : Text → Option Text → Text
  stored_caption_hash username caption =
      let text = or_empty caption in
      g.digest
        (username ++ b'|' ∷ (if g.weak text then alt_key g.wide_digit text else caption_key text))

  -- _migrate_rehash() and _migrate_alt_hash(), row by row
  unfoldable pub rehashed : StoredPost → StoredPost
  rehashed p = record p { hash = some (stored_caption_hash p.username p.caption) }

  unfoldable pub migrate_rehash : List StoredPost → List StoredPost
  migrate_rehash posts = map rehashed posts

  unfoldable pub alt_hashed : StoredPost → StoredPost
  alt_hashed p =
      let expanded = stored_caption_hash p.username p.caption in
      if not (is_some p.alt_hash) && (is_some p.hash && not (opt_eq p.hash (some expanded)))
      then record p { alt_hash = some expanded }
      else p

  unfoldable pub migrate_alt_hash : List StoredPost → List StoredPost
  migrate_alt_hash posts = map alt_hashed posts

  -- the twin of _migrate_merge_twins() and its slides merged into `dup`
  unfoldable pub merge_twin : StoredPost → StoredPost → Store → Store
  merge_twin dup twin s =
      let (row, dropped) = merged_fields g.weak dup twin now in
      let adopted = truthy twin.media_file && opt_eq row.media_file twin.media_file in
      let slides = if adopted then move_slides twin.id dup.id s.slides else s.slides in
      let left = keep (λ m. text_eq m.post_id twin.id) slides in
      record s {
        posts = write_merged dup.id row (delete_id twin.id s.posts);
        slides = keep (λ m. not (text_eq m.post_id twin.id)) slides;
        disk = discard_media (file_of dropped ++ slide_files left) s.disk;
      }

  unfoldable pub twin_row : Text → Store → Store
  twin_row id s = elim (by_id id s.posts) [
    | none ↦ s
    | some twin ↦
        elim (find_duplicate g.weak s.posts since twin.username none none twin.caption
          (some twin.id)) [ none ↦ s | some dup ↦ merge_twin dup twin s ]
  ]

  unfoldable pub twin_rows : List Text → Store → Store
  twin_rows [] s = s
  twin_rows (id ∷ ids) s = twin_rows ids (twin_row id s)

  unfoldable pub is_bare_row : StoredPost → Bool
  is_bare_row p = not (is_some p.url) && not (is_some p.posted_at)

  unfoldable pub migrate_merge_twins : Store → Store
  migrate_merge_twins s = twin_rows (ids_of (keep is_bare_row s.posts)) s

-- _migrate_updated_at()
unfoldable pub with_updated_at : StoredPost → StoredPost
with_updated_at p = if is_some p.updated_at then p else record p { updated_at = some p.scraped_at }

unfoldable pub migrate_updated_at : List StoredPost → List StoredPost
migrate_updated_at posts = map with_updated_at posts

-- MIGRATIONS, of a database that none has run on, as far as the posts, their slides and files go
unfoldable pub migrate : Given → (Text → ℕ → Option (ℕ × ℕ)) → Option ℕ → ℕ → Store → Store
migrate g parse since now s =
    let deduped = migrate_dedupe g parse since now s in
    let hashed : Store = record deduped {
      posts = migrate_alt_hash g parse since now (migrate_rehash g parse since now deduped.posts);
    } in
    let merged = migrate_merge_twins g parse since now hashed in
    record merged { posts = migrate_updated_at merged.posts }
