-- ===== src/Pages/Archive.antt =====
-- archive_page() of app/feedserver/queries.py and the pages of browse() in app/feedserver/browse.py over
-- the posts table. Which posts the FTS5 index finds for a query is a parameter. A person's way through
-- the pages is `follow`: the first request, and then each page's Older link.
use instadroid.Prelude.{
  ℕ, zero, suc, ◌+◌, Bool, true, not, ◌&&◌, ◌||◌, Option, none, some, List, [], ◌∷◌, ◌++◌, ltb,
  ◌==◌, if◌then◌else◌, Text, text_eq, keep, take, length,
}
use instadroid.Prelude.Strip.{strip}
use instadroid.Parsing.Identity.{or_empty}
use instadroid.Db.Posts.{StoredPost, truthy}
use instadroid.Feed.Cards.{is_empty}
use instadroid.Retention.Pruning.{age_of}
use instadroid.Pages.Order.{precedes, newest_first}
use instadroid.Pages.Query.{limit, fts_query}

-- The query parameters; `before` is a time, none where it is left out.
pub record PageRequest : Type 0 where
  pub user : Option Text
  pub q : Option Text
  pub before : Option ℕ
  pub before_id : Option Text
  pub limit : Option ℕ

pub record Page : Type 0 where
  pub on_page : List StoredPost
  pub older : Option PageRequest

abbrev pub default_limit : ℕ
default_limit = 50

-- (before, before_id) if before and before_id else None
unfoldable pub cursor : Option ℕ → Option Text → Option (ℕ × Text)
cursor none id = none
cursor (some time) none = none
cursor (some time) (some []) = none
cursor (some time) (some (c ∷ id)) = some (time, c ∷ id)

unfoldable pub after_cursor : Option (ℕ × Text) → StoredPost → Bool
after_cursor none p = true
after_cursor (some c) p = precedes c p

unfoldable pub of_user : Option Text → StoredPost → Bool
of_user user p = not (truthy user) || text_eq p.username (or_empty user)

-- rows[-1]
unfoldable pub last : List StoredPost → Option StoredPost
last [] = none
last (p ∷ []) = some p
last (p ∷ q ∷ posts) = last (q ∷ posts)

-- a parameter of _link(), which leaves a falsy one out
unfoldable pub link_param : Option Text → Option Text
link_param t = if truthy t then t else none

-- the Older link's parameters
unfoldable pub older_link : PageRequest → ℕ → StoredPost → PageRequest
older_link r size p = record {
  user = link_param r.user;
  q = link_param r.q;
  before = some (age_of p);
  before_id = link_param (some p.id);
  limit = if size == default_limit then none else some size;
}

unfoldable pub older_of : PageRequest → ℕ → List StoredPost → Option PageRequest
older_of r size shown = elim (last shown) [ none ↦ none | some p ↦ some (older_link r size p) ]

unfoldable pub page_size : Option ℕ → ℕ
page_size none = default_limit
page_size (some n) = n

module _ (found : Text → StoredPost → Bool) where
  -- the search's clause
  unfoldable pub matches : Option Text → StoredPost → Bool
  matches q p = let query = fts_query (or_empty q) in is_empty query || found query p

  -- WHERE
  unfoldable pub selected : Option Text → Option Text → Option (ℕ × Text) → StoredPost → Bool
  selected user q before p = matches q p && of_user user p && after_cursor before p

  unfoldable pub archive_page :
      Option Text → Option Text → Option (ℕ × Text) → ℕ → List StoredPost → List StoredPost
  archive_page user q before n posts =
      take (limit n + 1) (newest_first (keep (selected user q before) posts))

  -- The rows of a page: none is the list of accounts that it shows without a user or a search.
  unfoldable pub browse : PageRequest → List StoredPost → Option Page
  browse r posts =
      if not (truthy r.user) && is_empty (strip (or_empty r.q))
      then none
      else (let size = limit (page_size r.limit) in
          let rows = archive_page r.user r.q (cursor r.before r.before_id) size posts in
          let shown = take size rows in
          some (record {
            on_page = shown;
            older = if ltb size (length rows) then older_of r size shown else none;
          }))

  -- the rows of all pages, if there are no more pages than the fuel
  unfoldable pub follow : ℕ → PageRequest → List StoredPost → Option (List StoredPost)
  follow zero r posts = none
  follow (suc fuel) r posts = elim (browse r posts) [
    | none ↦ none
    | some page ↦ elim page.older [
      | none ↦ some page.on_page
      | some r' ↦ elim (follow fuel r' posts) [
        | none ↦ none
        | some rest ↦ some (page.on_page ++ rest)
      ]
    ]
  ]
