-- ===== src/Pages/Paging.antt =====
-- Following the Older links of app/feedserver/browse.py.
use mathlib.Core.List.{Perm}
use instadroid.Prelude.{
  ℕ, zero, suc, ◌+◌, ◌≤◌, ◌<◌, ◌≡◌, ◌≢◌, ◌∙◌, ap, inl, inr, Bool, false, not, ◌&&◌, Option, none,
  some, List, [], ◌++◌, arith, ltb, ◌==◌, Bool-cases, Text, keep, take, length, All, length-keep-le,
  take_all, take-take, length-take, take-drop, length-drop-lt,
}
use instadroid.Prelude.Strip.{strip}
use instadroid.Parsing.Identity.{or_empty}
use instadroid.Db.Posts.{StoredPost, truthy}
use instadroid.Db.Rows.{IsKeyed}
use instadroid.Feed.Cards.{is_empty}
use instadroid.Pages.Order.{
  newest_first-IsNewestFirst, newest_first-perm, length-newest_first, keep-IsKeyed, IsNewestFirst,
}
use instadroid.Pages.Archive.{
  PageRequest, cursor, last, older_link, older_of, page_size, selected, archive_page, browse,
  follow, default_limit,
}
use instadroid.Pages.Cursor.{
  wanted, rows_asked, size_of, truthy-link_param, or_empty-link_param, limit_bounds,
  rows_asked-older,
}

module _ (found : Text → StoredPost → Bool) where
  -- not the list of accounts
  abbrev IsSearch : PageRequest → Type 0
  IsSearch r = (not (truthy r.user) && is_empty (strip (or_empty r.q))) ≡ false

  browse_last :
      (r : PageRequest) (posts : List StoredPost)
      → IsSearch r
      → length (rows_asked found r posts) ≤ size_of r
      → browse found r posts ≡ some (record { on_page = rows_asked found r posts; older = none })
  unfolding browse archive_page
  browse_last r posts search h =
      rw (search, (limit_bounds (page_size r.limit)).1)
        (ground (
          arith,
          take_all (size_of r + 1) (rows_asked found r posts),
          take_all (size_of r) (rows_asked found r posts),
        ))

  browse_more :
      (r : PageRequest) (posts : List StoredPost)
      → IsSearch r
      → size_of r < length (rows_asked found r posts)
      → browse found r posts
        ≡ some (record {
          on_page = take (size_of r) (rows_asked found r posts);
          older = older_of r (size_of r) (take (size_of r) (rows_asked found r posts));
        })
  unfolding browse archive_page
  browse_more r posts search h =
      rw (search, (limit_bounds (page_size r.limit)).1)
        (ground (
          arith,
          take-take (size_of r) (rows_asked found r posts),
          length-take (size_of r + 1) (rows_asked found r posts),
        ))

  size_of-older :
      (r : PageRequest) (p : StoredPost) → size_of (older_link r (size_of r) p) ≡ size_of r
  unfolding older_link page_size
  size_of-older r p = elim (Bool-cases (size_of r == default_limit)) [
    | inl e ↦ rw e (ground (arith, (limit_bounds (page_size r.limit)).1))
    | inr e ↦ rw e ((limit_bounds (page_size r.limit)).1)
  ]

  IsSearch-older :
      (r : PageRequest) (n : ℕ) (p : StoredPost) → IsSearch r → IsSearch (older_link r n p)
  unfolding older_link
  IsSearch-older r n p h = rw (truthy-link_param r.user, or_empty-link_param r.q) h

  follow_last :
      (fuel : ℕ) (r : PageRequest) (posts shown : List StoredPost)
      → browse found r posts ≡ some (record { on_page = shown; older = none })
      → follow found (suc fuel) r posts ≡ some shown
  unfolding follow
  follow_last fuel r posts shown e = ground arith

  follow_more :
      (fuel : ℕ) (r r' : PageRequest) (posts shown rest : List StoredPost)
      → browse found r posts ≡ some (record { on_page = shown; older = some r' })
      → follow found fuel r' posts ≡ some rest
      → follow found (suc fuel) r posts ≡ some (shown ++ rest)
  unfolding follow
  follow_more fuel r r' posts shown rest e e' = ground arith

  older_of-last :
      (r : PageRequest) (size : ℕ) (shown : List StoredPost) (p : StoredPost)
      → last shown ≡ some p
      → older_of r size shown ≡ some (older_link r size p)
  unfolding older_of
  older_of-last r size shown p e = ground arith

  follow-rows_asked :
      (fuel : ℕ) (r : PageRequest) (posts : List StoredPost)
      → IsSearch r
      → IsKeyed posts
      → All (λ p. p.id ≢ []) posts
      → length (rows_asked found r posts) < fuel
      → follow found fuel r posts ≡ some (rows_asked found r posts)
  follow-rows_asked zero r posts s k ids h = absurd (omega arith)
  follow-rows_asked (suc fuel) r posts s k ids h =
      elim (Bool-cases (ltb (size_of r) (length (rows_asked found r posts)))) [
        | inr small ↦
            follow_last fuel r posts (rows_asked found r posts)
              (browse_last r posts s (ground arith))
        | inl large ↦
            let pos = (limit_bounds (page_size r.limit)).0 in
            let (p, e, behind) =
              rows_asked-older found r posts (size_of r) k ids pos (ground arith) in
            let r' = older_link r (size_of r) p in
            let fewer = length-drop-lt (size_of r) (rows_asked found r posts) pos (ground arith) in
            let rest =
              follow-rows_asked fuel r' posts (IsSearch-older r (size_of r) p s) k ids
                (rw behind (omega arith)) in
            let page =
              browse_more r posts s (ground arith)
              ∙ ap
                  (λ (o : Option PageRequest).
                    some
                      (record { on_page = take (size_of r) (rows_asked found r posts); older = o }))
                  (older_of-last r (size_of r) _ p e) in
            follow_more fuel r r' posts _ _ page rest
            ∙ ap some (
                ap (◌++◌ (take (size_of r) (rows_asked found r posts))) behind
                ∙ take-drop (size_of r) (rows_asked found r posts))
      ]

  -- For a table with an id in each row and none twice: whoever follows the Older links from any request
  -- for a user or a search comes to an end, and has seen each row that the request asks for exactly once,
  -- the newest first.
  pub follow-IsNewestFirst :
      (r : PageRequest) (posts : List StoredPost)
      → (not (truthy r.user) && is_empty (strip (or_empty r.q))) ≡ false
      → IsKeyed posts
      → All (λ p. p.id ≢ []) posts
      → (rows : List StoredPost) × (follow found (length posts + 1) r posts ≡ some rows)
        × IsNewestFirst rows
        × Perm rows (keep (selected found r.user r.q (cursor r.before r.before_id)) posts)
  follow-IsNewestFirst r posts s k ids = (
    rows_asked found r posts,
    follow-rows_asked (length posts + 1) r posts s k ids (
        omega (
          arith,
          length-newest_first (keep (wanted found r) posts),
          length-keep-le (wanted found r) posts,
        )),
    newest_first-IsNewestFirst _ (keep-IsKeyed (wanted found r) posts k),
    newest_first-perm (keep (wanted found r) posts),
  )
