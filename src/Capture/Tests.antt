-- ===== src/Capture/Tests.antt =====
-- Links copied from a share sheet.
use instadroid.Prelude.{ℕ, ◌≡◌, inl, inr, refl, Bool, true, false, none, some, [], ◌∷◌, Text, codes}
use instadroid.Feed.Cards.{Post}
use instadroid.Capture.Permalink.{
  is_code_char, match_permalink, permalink_url, match_permalink-permalink_url,
}
use instadroid.Capture.Copying.{holds, null, Clip, Sheet, fetch_permalink}
use instadroid.Capture.Links.{Outcome, fetch_permalink-Outcome}

abbrev ascii_only : ℕ → Bool
ascii_only c = false

abbrev card : Post
card = record {
  kind = codes "photo";
  username = codes "ann";
  posted_date = codes "2 hours ago";
  place = [];
  caption = codes "a walk by the sea";
  caption_bounds = none;
  caption_truncated = false;
  bounds = none;
  share_bounds = some (codes "[0,0][10,10]");
  header_bounds = none;
  clip_top = 0;
  alt = [];
  headless = false;
  complete = true;
  merged_reel = false;
}

abbrev by_caption : Post → Text
by_caption p = p.caption

abbrev copying : Sheet
copying = record {
  closed = true;
  cards = card ∷ [];
  opened = false ∷ true ∷ [];
  located = true;
  was_set = true;
  emptied = null;
  first = null ∷ holds (codes "https://www.instagram.com/p/Ab-1/?x=y") ∷ [];
  second = [];
  on_feed = true;
}

abbrev at_start : Clip
at_start = record { last_code = codes "Zz9"; clearing = true; certain = false; left_on_feed = none }

fetch_permalink-Outcome_example :
    Outcome ascii_only at_start
      (fetch_permalink ascii_only by_caption 2 (codes "a walk by the sea") copying at_start)
fetch_permalink-Outcome_example =
    fetch_permalink-Outcome ascii_only by_caption 2 (codes "a walk by the sea") copying at_start

match_permalink-permalink_url_example :
    match_permalink ascii_only (permalink_url (codes "reel", codes "Ab-1"))
    ≡ some (codes "reel", codes "Ab-1")
unfolding is_code_char
match_permalink-permalink_url_example =
    match_permalink-permalink_url ascii_only (codes "reel") (codes "b-1") b'A' (inr (inl refl))
      (refl, (refl, (refl, (refl, tt))))
