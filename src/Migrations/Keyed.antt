-- ===== src/Migrations/Keyed.antt =====
-- The primary key of the posts table through the migrations of app/instadroid/db.py.
use instadroid.Prelude.{
  ℕ, ◌≡◌, refl, inl, inr, true, false, Option, none, some, List, [], ◌∷◌, arith, Text, text_eq, All,
  All-map, All-intro, is_some, map, Bool-cases, Option-cases,
}
use instadroid.Db.Posts.{StoredPost, by_id, delete_id, find_duplicate}
use instadroid.Db.Merge.{merged_fields}
use instadroid.Db.Rows.{IsKeyed, delete_id-IsKeyed}
use instadroid.Db.Merging.{write_merged-IsKeyed}
use instadroid.Retention.Pruning.{Store}
use instadroid.Scrape.Storing.{Given, first_of, second_of}
use instadroid.Migrations.Steps.{
  safe_parse_posted_at, backfilled, merge_into, dedupe_row, dedupe_rows, migrate_dedupe, rehashed,
  migrate_rehash, alt_hashed, migrate_alt_hash, merge_twin, twin_row, twin_rows,
  migrate_merge_twins, with_updated_at, migrate_updated_at, migrate,
}

map-IsKeyed :
    (f : StoredPost → StoredPost)
    → ((p : StoredPost) → (f p).id ≡ p.id)
    → (posts : List StoredPost) → IsKeyed posts
    → IsKeyed (map f posts)
map-IsKeyed f same [] h = tt
map-IsKeyed f same (p ∷ posts) (fresh, h) =
    (rw (same p) (kept posts fresh), map-IsKeyed f same posts h)
  where
    kept :
        (qs : List StoredPost)
        → All (λ q. text_eq q.id p.id ≡ false) qs
        → All (λ q. text_eq q.id p.id ≡ false) (map f qs)
    kept [] a = tt
    kept (q ∷ qs) (e, a) = (rw (same q) e, kept qs a)

module _ (g : Given) (parse : Text → ℕ → Option (ℕ × ℕ)) (since : Option ℕ) (now : ℕ) where
  merge_into-IsKeyed :
      (dup p : StoredPost) (s : Store)
      → IsKeyed s.posts
      → IsKeyed (merge_into g parse since now dup p s).posts
  unfolding merge_into
  merge_into-IsKeyed dup p s h =
      elim (Bool-cases (text_eq (merged_fields g.weak dup p now).0.id p.id)) [
        | inl e ↦ rw e (write_merged-IsKeyed dup.id _ s.posts h)
        | inr e ↦ rw e (write_merged-IsKeyed dup.id _ _ (delete_id-IsKeyed p.id s.posts h))
      ]

  dedupe_row-IsKeyed :
      (id : Text) (s : Store) → IsKeyed s.posts → IsKeyed (dedupe_row g parse since now id s).posts
  unfolding dedupe_row
  dedupe_row-IsKeyed id s h = elim (Option-cases (by_id id s.posts)) [
    | inl e ↦ ground (arith, e, h)
    | inr (p, e) ↦
        elim (Option-cases (
          find_duplicate g.weak s.posts since p.username (first_of (safe_parse_posted_at parse p))
            (second_of (safe_parse_posted_at parse p)) p.caption (some p.id))) [
              | inl k ↦ ground (arith, e, k, h)
              | inr (dup, k) ↦ ground (arith, e, k, merge_into-IsKeyed dup p s h)
            ]
  ]

  dedupe_rows-IsKeyed :
      (ids : List Text) (s : Store)
      → IsKeyed s.posts
      → IsKeyed (dedupe_rows g parse since now ids s).posts
  unfolding dedupe_rows
  dedupe_rows-IsKeyed [] s h = h
  dedupe_rows-IsKeyed (id ∷ ids) s h = dedupe_rows-IsKeyed ids _ (dedupe_row-IsKeyed id s h)

  twin_row-IsKeyed :
      (id : Text) (s : Store) → IsKeyed s.posts → IsKeyed (twin_row g parse since now id s).posts
  unfolding twin_row merge_twin
  twin_row-IsKeyed id s h = elim (Option-cases (by_id id s.posts)) [
    | inl e ↦ ground (arith, e, h)
    | inr (p, e) ↦
        elim (Option-cases
          (find_duplicate g.weak s.posts since p.username none none p.caption (some p.id))) [
            | inl k ↦ ground (arith, e, k, h)
            | inr (dup, k) ↦ ground (
              arith,
              e,
              k,
              write_merged-IsKeyed dup.id (merged_fields g.weak dup p now).0
                  (delete_id p.id s.posts) (delete_id-IsKeyed p.id s.posts h),
            )
          ]
  ]

  twin_rows-IsKeyed :
      (ids : List Text) (s : Store)
      → IsKeyed s.posts
      → IsKeyed (twin_rows g parse since now ids s).posts
  unfolding twin_rows
  twin_rows-IsKeyed [] s h = h
  twin_rows-IsKeyed (id ∷ ids) s h = twin_rows-IsKeyed ids _ (twin_row-IsKeyed id s h)

  -- After the migrations no id is there twice if none was before, and every post has the time that it was
  -- last changed at.
  migrate-IsKeyed :
      (s : Store)
      → IsKeyed s.posts
      → IsKeyed (migrate g parse since now s).posts
        × All (λ p. is_some p.updated_at ≡ true) (migrate g parse since now s).posts
  unfolding migrate migrate_dedupe migrate_rehash migrate_alt_hash migrate_merge_twins
      migrate_updated_at backfilled rehashed alt_hashed with_updated_at
  migrate-IsKeyed s h =
      let hashed : Store = record (migrate_dedupe g parse since now s) {
        posts =
            migrate_alt_hash g parse since now
              (migrate_rehash g parse since now (migrate_dedupe g parse since now s).posts);
      } in
      let twins = migrate_merge_twins g parse since now hashed in
      let keyed : IsKeyed twins.posts = twin_rows-IsKeyed _ hashed (
        map-IsKeyed (alt_hashed g parse since now) (λ p. ground arith) _
          (map-IsKeyed (rehashed g parse since now) (λ p. refl) _
            (dedupe_rows-IsKeyed _ _
              (map-IsKeyed (backfilled g parse since now) (λ p. ground arith) s.posts h)))) in
      (
        map-IsKeyed with_updated_at (λ p. ground arith) twins.posts keyed,
        All-map (λ p. is_some p.updated_at ≡ true) with_updated_at twins.posts
            (All-intro _ (λ p. ground arith) twins.posts),
      )
