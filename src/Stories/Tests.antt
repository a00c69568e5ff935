-- ===== src/Stories/Tests.antt =====
-- A round of stories.
use instadroid.Prelude.{
  ℕ, ◌+◌, ◌≡◌, refl, true, false, some, List, [], ◌∷◌, ◌++◌, Text, codes, text_eq, contains,
}
use instadroid.Retention.Pruning.{Story}
use instadroid.Stories.Storing.{CapturedStory, Shelf, TrayItem, scrape_stories}
use instadroid.Stories.Apart.{IsGrown, scrape_stories-IsGrown}

row_of : ℕ → List ℕ
row_of n = n ∷ (n + 9) ∷ n ∷ (n + 9) ∷ n ∷ (n + 9) ∷ n ∷ (n + 9) ∷ n ∷ []

abbrev frame : List ℕ
unfolding row_of
frame =
    row_of 1
    ++ (row_of 2 ++ (row_of 3 ++ (row_of 4 ++ (row_of 5 ++ (row_of 6 ++ (row_of 7 ++ row_of 8))))))

abbrev captured : CapturedStory
captured = record {
  username = codes "ann";
  posted_date = codes "5h";
  path = codes "stories/tmp_ann_1.webp";
  suffix = codes ".webp";
  is_blank = false;
  pixels = 5 ∷ 4 ∷ 9 ∷ 1 ∷ [];
  digest = codes "d1";
}

abbrev stored_story : Story
stored_story = record {
  id = codes "d0";
  username = codes "ben";
  media_file = some (codes "stories/d0.webp");
  posted_date = some (codes "2h");
  scraped_at = 80000;
  phash = some 65535;
}

abbrev shelf : Shelf
shelf = record {
  stories = stored_story ∷ [];
  files = codes "stories/d0.webp" ∷ codes "stories/tmp_ann_1.webp" ∷ [];
}

abbrev item : TrayItem
item = record {
  seen = false;
  on_home = true;
  recovered = [];
  captured = some captured;
  now = 90000;
}

stored-file : (f : Text) → stored_story.media_file ≡ some f → contains f shelf.files ≡ true
unfolding contains text_eq
stored-file f e = let same : codes "stories/d0.webp" ≡ f = cc in rw (← same) refl

scrape_stories-IsGrown_example :
    IsGrown
      (stored_story ∷ [])
      3
      0
      (scrape_stories 3 (true ∷ []) (item ∷ item ∷ []) shelf).0
      (scrape_stories 3 (true ∷ []) (item ∷ item ∷ []) shelf).1
scrape_stories-IsGrown_example =
    scrape_stories-IsGrown 3 (true ∷ []) (item ∷ item ∷ []) shelf
      (record { apart = (tt, tt); ids = (tt, tt) })
