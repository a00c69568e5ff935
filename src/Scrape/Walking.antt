-- ===== src/Scrape/Walking.antt =====
-- _note_screen(), _reopen_after_empty_screens() and _walk_feed() of app/instadroid/scrape.py. The dumps
-- that the device will show are a list: each with what restriction_text() finds on it, its cards, what the
-- device answers for each, and what _stop_reason() says before it. Avatars, logging and debug dumps are not modelled.
use instadroid.Prelude.{
  ℕ, ◌+◌, Bool, true, not, ◌&&◌, ◌||◌, Option, none, some, is_some, List, [], ◌∷◌, leb, ltb, ◌==◌,
  if◌then◌else◌, Text, contains, keep, length,
}
use instadroid.Feed.Cards.{Post, is_empty}
use instadroid.Scrape.Storing.{Given, Answers, Saved, shown}
use instadroid.Scrape.Handling.{FeedRun, next_card, redump, Limits, Handled, handle_card}

pub record Screen : Type 0 where
  pub cards : List (Post × Answers)
  pub stop : Option Text
  pub restricted : Option Text

-- the rest of _FeedRun, with the tables
pub record Walking : Type 0 where
  pub saved : Saved
  pub run : FeedRun
  pub screens : ℕ
  pub empty_streak : ℕ
  pub feed_reopened : Bool
  pub filtered_posts : ℕ
  pub stat_dumps : ℕ
  pub stat_cards : ℕ
  pub stat_captioned : ℕ
  pub stat_complete : ℕ
  pub stopped_early : Option Text

-- why the walk ends; `raised` where check_restricted() raises, with what is shown
pub data Stop : Type 0 where
  all_screens : Stop
  out_of_budget : Stop
  still_empty : Stop
  seen_posts : Stop
  no_more_dumps : Stop
  raised : Text → Stop

-- MAX_SCROLLS, EMPTY_SCREEN_LIMIT and STOP_AFTER_SEEN
pub record Bounds : Type 0 where
  pub max_scrolls : ℕ
  pub empty_screen_limit : ℕ
  pub stop_after_seen : ℕ

-- whether the allowlist lets a card through
unfoldable pub is_followed : Option (List Text) → Post × Answers → Bool
is_followed none c = true
is_followed (some followed) (p, a) = is_empty p.username || contains p.username followed

is_complete : Post × Answers → Bool
is_complete (p, a) = p.complete

is_captioned : (Text → Bool) → Post × Answers → Bool
is_captioned weak (p, a) = not (weak (shown p))

-- _note_screen(): the counters; the cards themselves are `keep (is_followed followed) cards`
unfoldable pub note_screen :
    (Text → Bool) → Option (List Text) → List (Post × Answers) → Walking → Walking
unfolding is_complete is_captioned
note_screen weak followed cards w =
    let posts = keep (is_followed followed) cards in
    record w {
      stat_dumps = w.stat_dumps + 1;
      stat_cards = w.stat_cards + length cards;
      stat_captioned = w.stat_captioned + length (keep (is_captioned weak) cards);
      stat_complete = w.stat_complete + length (keep is_complete cards);
      filtered_posts = w.filtered_posts + length (keep (λ c. not (is_followed followed c)) cards);
      empty_streak = if length posts == 0 then w.empty_streak + 1 else 0;
    }

-- _reopen_after_empty_screens(), the first time
unfoldable pub reopened : Walking → Walking
reopened w = record w { feed_reopened = true; empty_streak = 0 }

unfoldable pub is_lost : Bounds → Walking → Bool
is_lost b w = not (b.empty_screen_limit == 0) && leb b.empty_screen_limit w.empty_streak

module _ (g : Given) (limits : Limits) (since : Option ℕ) (ig_version : Option Text) where
  -- the `for` over the cards: at most one that changes the screen; none is an error
  unfoldable pub visit : List (Post × Answers) → Saved → FeedRun → Option Handled
  visit [] s run = some (record { saved = s; run = run; result = next_card })
  visit ((p, a) ∷ cards) s run = elim (handle_card g limits since ig_version a p s run) [
    | none ↦ none
    | some done ↦ elim done.result [
      | redump ↦ some done
      | next_card ↦ visit cards done.saved done.run
    ]
  ]

  -- what follows the cards of a screen
  unfoldable pub scroll_on : Bounds → Handled → Walking → Walking × Option Stop
  scroll_on b done w =
      let w' : Walking = record w { saved = done.saved; run = done.run } in
      elim done.result [
        | redump ↦ (w', none)
        | next_card ↦
            if leb b.stop_after_seen done.run.seen_streak
            then (w', some seen_posts)
            else (record w' { screens = w.screens + 1 }, none)
      ]

  -- one turn of the loop: the state, and why it ends, if it does
  unfoldable pub turn :
      Bounds → Option (List Text) → Screen → Walking → Option (Walking × Option Stop)
  turn b followed sc w =
      let noted = note_screen g.weak followed sc.cards w in
      let visited = visit (keep (is_followed followed) sc.cards) noted.saved noted.run in
      let next : Option (Walking × Option Stop) = elim visited [
        | none ↦ none
        | some done ↦ some (scroll_on b done noted)
      ] in
      if not (ltb w.screens b.max_scrolls)
      then some (w, some all_screens)
      else (if is_some sc.stop
          then some (record w { stopped_early = sc.stop }, some out_of_budget)
          else elim sc.restricted [
            | some t ↦ some (w, some (raised t))
            | none ↦
                if is_lost b noted
                then (if noted.feed_reopened
                    then some (noted, some still_empty)
                    else some (reopened noted, none))
                else next
          ])

  -- _walk_feed() over these dumps
  unfoldable pub walk_feed :
      Bounds → Option (List Text) → List Screen → Walking → Option (Walking × Stop)
  walk_feed b followed [] w =
      some (w, if ltb w.screens b.max_scrolls then no_more_dumps else all_screens)
  walk_feed b followed (sc ∷ dumps) w = elim (turn b followed sc w) [
    | none ↦ none
    | some (w', why) ↦ elim why [
      | some reason ↦ some (w', reason)
      | none ↦ walk_feed b followed dumps w'
    ]
  ]
