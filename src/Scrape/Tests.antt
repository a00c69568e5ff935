-- ===== src/Scrape/Tests.antt =====
-- One card of a feed, stored and seen again.
use instadroid.Prelude.{
  ℕ, ◌+◌, ◌≡◌, true, false, Option, none, some, is_some, List, [], ◌∷◌, Text, codes,
}
use instadroid.Feed.Cards.{Post}
use instadroid.Scrape.Storing.{Given, Answers, Saved}
use instadroid.Scrape.Handling.{FeedRun, Limits, handle_card}
use instadroid.Scrape.Inserting.{handle_card_succeeds}
use instadroid.Scrape.Walking.{Screen, Walking, Bounds}

abbrev plain : Given
plain = record {
  weak = λ t. false;
  digest = λ t. t;
  wide_digit = λ c. false;
  wide_word = λ c. false;
  show = λ n. (48 + n) ∷ [];
  suffix = λ f. codes ".jpg";
}

abbrev limits : Limits
limits = record { retries = 0; backfill_tries = 3 }

abbrev card : Post
card = record {
  kind = codes "photo";
  username = codes "ann";
  posted_date = codes "2 hours ago";
  place = [];
  caption = codes "a walk by the sea";
  caption_bounds = none;
  caption_truncated = false;
  bounds = some (codes "[0,0][10,10]");
  share_bounds = none;
  header_bounds = none;
  clip_top = 0;
  alt = [];
  headless = false;
  complete = true;
  merged_reel = false;
}

abbrev answers : Answers
answers = record {
  expanded = [];
  media = some (codes "c.jpg");
  slides = [];
  link = some (codes "C0de");
  failed = none;
  certain = true;
  left_feed = false;
  shared = false;
  posted = some (80000, 3600);
  now = 90000;
}

abbrev nothing_saved : Saved
nothing_saved = record { posts = []; slides = []; disk = [] }

abbrev new_run : FeedRun
new_run = record {
  this_run = [];
  seen_streak = 0;
  backfills_left = 1;
  link_failures = [];
  fail_reasons = [];
  suspected = [];
  new = 0;
}

abbrev at_top : Walking
at_top = record {
  saved = nothing_saved;
  run = new_run;
  screens = 0;
  empty_streak = 0;
  feed_reopened = false;
  filtered_posts = 0;
  stat_dumps = 0;
  stat_cards = 0;
  stat_captioned = 0;
  stat_complete = 0;
  stopped_early = none;
}

abbrev two_screens : Bounds
two_screens = record { max_scrolls = 2; empty_screen_limit = 3; stop_after_seen = 4 }

abbrev two_dumps : List Screen
two_dumps =
    record { cards = (card, answers) ∷ []; stop = none; restricted = none }
    ∷ record { cards = []; stop = none; restricted = some (codes "Try Again Later") }
    ∷ []

handle_card_succeeds_example :
    let g : Given = plain in
    let l : Limits = limits in
    let since : Option ℕ = none in
    let ig : Option Text = none in
    let a : Answers = answers in
    let p : Post = card in
    let s : Saved = nothing_saved in
    let run : FeedRun = new_run in is_some (handle_card g l since ig a p s run) ≡ true
handle_card_succeeds_example =
    handle_card_succeeds plain limits none none answers card nothing_saved new_run
