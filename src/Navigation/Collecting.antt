-- ===== src/Navigation/Collecting.antt =====
-- scrape_following_list() and refresh_following_list() of app/instadroid/navigation.py, and
-- parse_following_list() of app/instadroid/parsing.py. The dumps that the device shows are a function
-- of the number of scrolls.
use instadroid.Prelude.{
  ℕ, zero, suc, ◌+◌, Bool, false, not, ◌&&◌, Option, none, some, List, [], ◌∷◌, ◌++◌, leb, ◌==◌,
  if◌then◌else◌, Text, contains, map, keep, length,
}
use instadroid.Feed.Cards.{Node, is_empty}
use instadroid.Db.Following.{Following, store_following}

-- parse_following_list(), of the nodes of a dump; whether an id is follow_list_username_id is a test
unfoldable pub parse_following_list : (Text → Bool) → List Node → List Text
parse_following_list is_username nodes =
    map (λ n. n.text) (keep (λ n. is_username n.rid && not (is_empty n.text)) nodes)

-- the names that are not there yet, in their order, at the end
unfoldable pub collect : List Text → List Text → List Text
collect collected [] = collected
collect collected (n ∷ names) =
    collect (if contains n collected then collected else collected ++ n ∷ []) names

-- the loop, `rounds` before MAX_FOLLOWING_SCROLLS is reached
unfoldable pub scroll_list : ℕ → ℕ → ℕ → (ℕ → List Text) → List Text → ℕ → List Text
scroll_list limit zero screens names collected empty_streak = collected
scroll_list limit (suc rounds) screens names collected empty_streak =
    let collected' = collect collected (names screens) in
    let streak = if length collected' == length collected then empty_streak + 1 else 0 in
    let rest = scroll_list limit rounds (screens + 1) names collected' streak in
    if leb limit streak then collected' else rest

-- scrape_following_list(): none when nothing was collected
unfoldable pub scrape_following_list : ℕ → ℕ → (ℕ → List Text) → Option (List Text)
scrape_following_list limit max_scrolls names = elim (scroll_list limit max_scrolls 0 names [] 0) [
  | [] ↦ none
  | n ∷ collected ↦ some (n ∷ collected)
]

-- what a refresh leaves, and the sizes in its warning; none where storing it raises
unfoldable pub store_collected :
    ℕ → ℕ → Option (List Text) → Following → Option (Following × Option (ℕ × ℕ))
store_collected shrink now none f = some (f, none)
store_collected shrink now (some usernames) f = store_following shrink f usernames false now

-- refresh_following_list(): whether the list could be opened, then its screens
unfoldable pub refresh_following_list :
    ℕ → ℕ → ℕ → ℕ → Bool → (ℕ → List Text) → Following → Option (Following × Option (ℕ × ℕ))
refresh_following_list shrink now limit max_scrolls opened names f =
    if opened
    then store_collected shrink now (scrape_following_list limit max_scrolls names) f
    else some (f, none)
