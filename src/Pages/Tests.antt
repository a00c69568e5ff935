-- ===== src/Pages/Tests.antt =====
-- Two posts, read page by page and searched.
use instadroid.Prelude.{
  true, ℕ, ◌+◌, ◌≡◌, refl, Bool, false, Option, none, some, List, [], ◌∷◌, Text, codes, text_eq,
  keep, map, length, take,
}
use mathlib.Core.List.{Perm}
use instadroid.Parsing.Words.{words}
use instadroid.Db.Posts.{StoredPost, truthy}
use instadroid.Pages.Order.{IsNewestFirst}
use instadroid.Pages.Query.{fts_query, no_nul, max_search_words}
use instadroid.Pages.Archive.{PageRequest, cursor, selected, follow}
use instadroid.Pages.Paging.{follow-IsNewestFirst}
use instadroid.Pages.Words.{read_query, read_query-fts_query}
use instadroid.Pages.Filters.{like, like_pattern, fold_case, escaped, wilds, wild_match, some_tail}
use instadroid.Parsing.Words.{before}
use instadroid.Feed.Cards.{is_empty}
use instadroid.Pages.Matching.{is_within, like-like_pattern}

abbrev post_at : Text → ℕ → StoredPost
post_at id t = record {
  id = id;
  username = codes "ann";
  kind = none;
  posted_date = none;
  caption = none;
  media_file = none;
  scraped_at = t;
  hash = none;
  alt_hash = none;
  url = none;
  place = none;
  posted_at = none;
  updated_at = none;
  ig_version = none;
  permalink_attempts = 0;
}

abbrev one_by_one : PageRequest
one_by_one = record {
  user = some (codes "ann");
  q = none;
  before = none;
  before_id = none;
  limit = some 1;
}

follow-IsNewestFirst_example :
    let found : Text → StoredPost → Bool = λ q p. false in
    let r : PageRequest = one_by_one in
    let posts : List StoredPost = post_at (codes "p1") 10 ∷ post_at (codes "p2") 10 ∷ [] in
    (rows : List StoredPost) × (follow found (length posts + 1) r posts ≡ some rows)
    × IsNewestFirst rows
    × Perm rows (keep (selected found r.user r.q (cursor r.before r.before_id)) posts)
unfolding truthy text_eq
follow-IsNewestFirst_example =
    follow-IsNewestFirst (λ q p. false) one_by_one
      (post_at (codes "p1") 10 ∷ post_at (codes "p2") 10 ∷ []) refl ((refl, tt), (tt, tt))
      (λ e. cc, (λ e. cc, tt))

read_query-fts_query_example :
    let q : Text = codes "say \"hi\" OR" in
    read_query (fts_query q) ≡ some (take max_search_words (words (no_nul q)))
read_query-fts_query_example = read_query-fts_query (codes "say \"hi\" OR")

like-like_pattern_example :
    let q : Text = codes "50%" in
    let caption : Option Text = some (codes "now 50% off") in
    like (like_pattern q) caption ≡ elim caption [
      | none ↦ false
      | some s ↦ is_within (map fold_case q) (map fold_case (before 0 s))
    ]
like-like_pattern_example =
    like-like_pattern (codes "50%") (some (codes "now 50% off")) (λ e. cc, (λ e. cc, (λ e. cc, tt)))

-- what stands behind a NUL of the search is not looked for
nul_ends : like (like_pattern (b'a' ∷ 0 ∷ codes "zzz")) (some (codes "alpha")) ≡ true
unfolding like like_pattern escaped wilds wild_match some_tail before is_empty fold_case
nul_ends = refl
