-- ===== src/Pages/Cursor.antt =====
-- What the Older link of app/feedserver/browse.py asks for: the list of the page, less the page.
use mathlib.Core.List.{Memᴰ}
use instadroid.Prelude.{
  ℕ, zero, suc, ◌≤◌, ◌<◌, ◌≡◌, ◌≢◌, refl, ◌∙◌, ap, inl, inr, Bool, true, false, ◌&&◌, Option, none,
  some, List, [], ◌∷◌, arith, Bool-cases, Text, keep, take, drop, length, All, keep-All,
  keep-refine, All-mem, All-both, All-kept, All-keep,
}
use instadroid.Parsing.Identity.{or_empty}
use instadroid.Db.Posts.{StoredPost, truthy}
use instadroid.Db.Rows.{IsKeyed}
use instadroid.Retention.Pruning.{age_of}
use instadroid.Pages.Order.{
  sort_place, precedes, precedes_irrefl, precedes_trans, newest_first, newest_first-keep,
  newest_first-IsNewestFirst, newest_first-All, keep-IsKeyed, IsNewestFirst,
}
use instadroid.Pages.Query.{limit}
use instadroid.Pages.Archive.{
  PageRequest, cursor, after_cursor, of_user, last, link_param, older_link, page_size, matches,
  selected,
}

precedes_asym :
    (p x : StoredPost) → precedes (sort_place x) p ≡ true → precedes (sort_place p) x ≡ false
precedes_asym p x h = elim (Bool-cases (precedes (sort_place p) x)) [
  | inl e ↦ cc (precedes_trans (sort_place x) p x h e, precedes_irrefl x)
  | inr e ↦ e
]

-- the last row of a page is a cursor: the rows before it are those behind the page
last_is_cursor :
    (rows : List StoredPost) (n : ℕ)
    → IsNewestFirst rows
    → n < length rows
    → (p : StoredPost) × (last (take (suc n) rows) ≡ some p)
      × (keep (precedes (sort_place p)) rows ≡ drop (suc n) rows)
      × Memᴰ p rows
unfolding last keep
last_is_cursor [] n h k = absurd (omega arith)
last_is_cursor (x ∷ xs) zero (h, hs) k =
    (x, refl, rw (precedes_irrefl x) (keep-All _ xs h), Memᴰ.head refl)
last_is_cursor (x ∷ []) (suc n) h k = absurd (omega arith)
last_is_cursor (x ∷ y ∷ xs) (suc n) (h, hs) k =
    let (p, e, f, m) = last_is_cursor (y ∷ xs) n hs (omega arith) in
    let later : precedes (sort_place p) x ≡ false = precedes_asym p x (All-mem _ h m) in
    (p, e, rw later f, Memᴰ.tail m)

pub truthy-link_param : (t : Option Text) → truthy (link_param t) ≡ truthy t
unfolding truthy link_param
truthy-link_param none = refl
truthy-link_param (some []) = refl
truthy-link_param (some (c ∷ s)) = refl

pub or_empty-link_param : (t : Option Text) → or_empty (link_param t) ≡ or_empty t
unfolding truthy link_param or_empty
or_empty-link_param none = refl
or_empty-link_param (some []) = refl
or_empty-link_param (some (c ∷ s)) = refl

abbrev pub size_of : PageRequest → ℕ
size_of r = limit (page_size r.limit)

pub limit_bounds : (n : ℕ) → (1 ≤ limit n) × (limit (limit n) ≡ limit n)
unfolding limit
limit_bounds n = omega arith

after_cursor_trans :
    (c : Option (ℕ × Text)) (p x : StoredPost)
    → after_cursor c p ≡ true
    → precedes (sort_place p) x ≡ (after_cursor c x && precedes (sort_place p) x)
unfolding after_cursor
after_cursor_trans none p x h = refl
after_cursor_trans (some c) p x h = ground (arith, precedes_trans c p x)

cursor-link_param :
    (time : ℕ) (id : Text) → id ≢ [] → cursor (some time) (link_param (some id)) ≡ some (time, id)
unfolding cursor link_param truthy
cursor-link_param time [] h = absurd (h refl)
cursor-link_param time (c ∷ id) h = refl

module _ (found : Text → StoredPost → Bool) where
  -- the rows that a request asks for, on its page and those behind it
  abbrev pub wanted : PageRequest → StoredPost → Bool
  wanted r = selected found r.user r.q (cursor r.before r.before_id)

  abbrev pub rows_asked : PageRequest → List StoredPost → List StoredPost
  rows_asked r posts = newest_first (keep (wanted r) posts)

  selected-link_param :
      (user q : Option Text) (c : Option (ℕ × Text)) (x : StoredPost)
      → selected found (link_param user) (link_param q) c x ≡ selected found user q c x
  unfolding selected matches of_user
  selected-link_param user q c x =
      rw (truthy-link_param user, or_empty-link_param user, or_empty-link_param q)

  selected-after :
      (user q : Option Text) (c : Option (ℕ × Text)) (p x : StoredPost)
      → selected found user q c p ≡ true
      → selected found user q (some (sort_place p)) x
        ≡ (selected found user q c x && precedes (sort_place p) x)
  unfolding selected after_cursor
  selected-after user q c p x h = ground (arith, after_cursor_trans c p x)

  wanted-older_link :
      (r : PageRequest) (size : ℕ) (p x : StoredPost)
      → p.id ≢ []
      → wanted r p ≡ true
      → wanted (older_link r size p) x ≡ (wanted r x && precedes (sort_place p) x)
  unfolding older_link
  wanted-older_link r size p x h w =
      rw
        (
          cursor-link_param (age_of p) p.id h,
          selected-link_param r.user r.q (some (sort_place p)) x,
        )
        (selected-after r.user r.q _ p x w)

  -- a row of the list that is asked for is asked for, and has an id
  abbrev pub IsAsked : PageRequest → StoredPost → Type 0
  IsAsked r p = (wanted r p ≡ true) × (p.id ≢ [])

  rows_asked-IsAsked :
      (r : PageRequest) (posts : List StoredPost)
      → All (λ p. p.id ≢ []) posts
      → All (IsAsked r) (rows_asked r posts)
  rows_asked-IsAsked r posts h =
      newest_first-All (IsAsked r) (keep (wanted r) posts)
        (All-both _ _ _ (All-kept (wanted r) posts) (All-keep _ (wanted r) posts h))

  -- the list that the Older link asks for is what is left behind the page
  pub rows_asked-older :
      (r : PageRequest) (posts : List StoredPost) (size : ℕ)
      → IsKeyed posts
      → All (λ p. p.id ≢ []) posts
      → 1 ≤ size
      → size < length (rows_asked r posts)
      → (p : StoredPost) × (last (take size (rows_asked r posts)) ≡ some p)
        × (rows_asked (older_link r size p) posts ≡ drop size (rows_asked r posts))
  rows_asked-older r posts zero k ids pos h = absurd (omega arith)
  rows_asked-older r posts (suc n) k ids pos h =
      let sorted = newest_first-IsNewestFirst _ (keep-IsKeyed _ posts k) in
      let (p, e, f, m) = last_is_cursor (rows_asked r posts) n sorted (omega arith) in
      let (w, id) = All-mem (IsAsked r) (rows_asked-IsAsked r posts ids) m in
      (
        p,
        e,
        ap newest_first (
              keep-refine (precedes (sort_place p)) (wanted r) (wanted (older_link r (suc n) p))
                posts (λ x. wanted-older_link r (suc n) p x id w))
            ∙ newest_first-keep _ (keep (wanted r) posts) (keep-IsKeyed _ posts k)
            ∙ f,
      )
