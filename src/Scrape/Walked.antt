-- ===== src/Scrape/Walked.antt =====
-- The loop of _walk_feed() (app/instadroid/scrape.py): what holds after any number of dumps.
use mathlib.Core.List.{Memᴰ}
use instadroid.Prelude.{
  ℕ, ◌+◌, ◌≤◌, ◌≡◌, refl, Bool, true, not, Option, none, some, is_some, List, [], ◌∷◌, arith, Text,
  keep, length, All, Text,
}
use instadroid.Db.Rows.{IsKeyed}
use instadroid.Feed.Cards.{Post}
use instadroid.Scrape.Storing.{Given, Answers}
use instadroid.Scrape.Handling.{Limits, Handled}
use instadroid.Scrape.Keyed.{KeyedAfter}
use instadroid.Scrape.Walking.{
  Screen, Walking, Stop, all_screens, out_of_budget, still_empty, seen_posts, no_more_dumps, raised,
  Bounds, is_lost, is_followed, note_screen,
}

length-split :
    {A : Type 0} (p : A → Bool) (xs : List A)
    → length (keep (λ x. not (p x)) xs) + length (keep p xs) ≡ length xs
unfolding keep
length-split p [] = refl
length-split p (x ∷ xs) = ground (arith, length-split p xs)

-- Every card of a dump is counted once: kept by the allowlist or filtered by it.
pub note_screen-counts :
    (weak : Text → Bool) (followed : Option (List Text)) (cards : List (Post × Answers))
    (w : Walking)
    → (note_screen weak followed cards w).filtered_posts
        + length (keep (is_followed followed) cards)
        + w.stat_cards
      ≡ (note_screen weak followed cards w).stat_cards + w.filtered_posts
unfolding note_screen
note_screen-counts weak followed cards w = omega (arith, length-split (is_followed followed) cards)

-- the table keyed, and no more screens than MAX_SCROLLS
abbrev pub IsFine : Bounds → Walking → Type 0
IsFine b w = IsKeyed w.saved.posts × (w.screens ≤ b.max_scrolls)

-- What a reason to end says of the state at the end and of the dumps.
abbrev pub IsReason : Bounds → List Screen → Walking → Stop → Type 0
IsReason b dumps w all_screens = w.screens ≡ b.max_scrolls
IsReason b dumps w out_of_budget = is_some w.stopped_early ≡ true
IsReason b dumps w still_empty = (w.feed_reopened ≡ true) × (is_lost b w ≡ true)
IsReason b dumps w seen_posts = b.stop_after_seen ≤ w.run.seen_streak
IsReason b dumps w no_more_dumps = All (λ sc. sc.restricted ≡ none) dumps
IsReason b dumps w (raised t) = (sc : Screen) × Memᴰ sc dumps × (sc.restricted ≡ some t)

abbrev pub Finished : Bounds → List Screen → Option (Walking × Stop) → Type 0
Finished b dumps none = ⊥
Finished b dumps (some (w, why)) = IsFine b w × IsReason b dumps w why

module _ (g : Given) (l : Limits) (since : Option ℕ) (ig : Option Text) where
  Ran : Option Handled → Type 0
  Ran o = (is_some o ≡ true) × KeyedAfter o

  -- a turn, by what its dump shows: a reason to end, or no restriction
  Turned : Bounds → Option Text → Option (Walking × Option Stop) → Type 0
  Turned b shown none = ⊥
  Turned b shown (some (w, none)) = IsFine b w × (shown ≡ none)
  Turned b shown (some (w, some no_more_dumps)) = ⊥
  Turned b shown (some (w, some (raised t))) = IsFine b w × (shown ≡ some t)
  Turned b shown (some (w, some why)) = IsFine b w × IsReason b [] w why
