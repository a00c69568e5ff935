-- ===== src/Reshare/Tests.antt =====
-- A frame that shows a stored post, and a pass with a cache.
use instadroid.Prelude.{
  ℕ, ◌+◌, ◌≤◌, ◌≡◌, true, not, ◌&&◌, Option, none, some, List, [], ◌∷◌, arith, if◌then◌else◌, Text,
  codes, text_eq, All, keep, length, leb,
}
use instadroid.Retention.Pruning.{Story}
use instadroid.Stories.Storing.{Shelf}
use instadroid.Stories.Apart.{IsTidy}
use instadroid.Reshare.Thumbnails.{StoredFiles, Thumbnails, get, post_images}
use instadroid.Reshare.Current.{IsCurrent, post_images-IsCurrent}
use instadroid.Reshare.Searching.{
  Frame, placed_from, nlargest, candidates, find_reshared, is_reshare, drop_reshared_stories,
}
use instadroid.Reshare.Found.{IsMatch, Covers, find_reshared-IsMatch}
use instadroid.Reshare.Dropped.{drop_reshared_stories-exact}

abbrev frame : Frame ℕ
frame = record {
  search = λ image. some (record { score = image; scale = 80; top = 20 });
  refine = λ image near. record near { score = image + 10 };
  plain_around = λ card image. true;
}

abbrev posts : List (Text × ℕ)
posts = (codes "p1", 60) ∷ (codes "p2", 85) ∷ []

abbrev frames : Text → Option (Frame ℕ)
frames file = if text_eq file (codes "stories/d0.webp") then some frame else none

abbrev a_story : Story
a_story = record {
  id = codes "d0";
  username = codes "ben";
  media_file = some (codes "stories/d0.webp");
  posted_date = some (codes "2h");
  scraped_at = 80000;
  phash = some 65535;
}

abbrev shelf : Shelf
shelf = record { stories = a_story ∷ []; files = codes "stories/d0.webp" ∷ [] }

abbrev on_disk : StoredFiles ℕ
on_disk = record { mtime = λ name. some 7; decode = λ name. some (some 60) }

abbrev cache : List (Text × Thumbnails ℕ)
cache = (codes "p1.webp", (7, some 60)) ∷ []

cache-IsCurrent : IsCurrent ℕ on_disk cache
unfolding get
cache-IsCurrent name mtime t held there = ground (arith, held)

post_images-IsCurrent_example :
    ((post_images ℕ on_disk 10 cache ((codes "p1", codes "p1.webp") ∷ []) []).0
      ≡ (post_images ℕ on_disk 10 [] ((codes "p1", codes "p1.webp") ∷ []) []).0)
    × IsCurrent ℕ on_disk (post_images ℕ on_disk 10 cache ((codes "p1", codes "p1.webp") ∷ []) []).1
    × (length (post_images ℕ on_disk 10 cache ((codes "p1", codes "p1.webp") ∷ []) []).1 ≤ 10)
unfolding get
post_images-IsCurrent_example =
    post_images-IsCurrent ℕ on_disk 10 cache cache-IsCurrent ((codes "p1", codes "p1.webp") ∷ []) []
      [] (λ name mtime t held there. ground (arith, held)) (ground arith)

find_reshared-IsMatch_example :
    IsMatch ℕ frame 82 posts (find_reshared ℕ frame 82 posts)
    × All
        (λ c.
          Covers ℕ frame 82 (find_reshared ℕ frame 82 posts) (frame.refine c.post.1 c.near).score)
        (nlargest ℕ candidates (placed_from ℕ frame 0 posts))
find_reshared-IsMatch_example = find_reshared-IsMatch ℕ frame 82 posts

drop_reshared_stories-exact_example :
    ((drop_reshared_stories ℕ frames 82 posts 70000 shelf).0.stories
      ≡ keep (λ x. not (leb 70000 x.scraped_at && is_reshare ℕ frames 82 posts x)) (a_story ∷ []))
    × ((drop_reshared_stories ℕ frames 82 posts 70000 shelf).1
        ≡ length (
            keep
              (is_reshare ℕ frames 82 posts)
              (keep (λ x. leb 70000 x.scraped_at) (a_story ∷ []))))
    × IsTidy (drop_reshared_stories ℕ frames 82 posts 70000 shelf).0.stories
drop_reshared_stories-exact_example =
    drop_reshared_stories-exact ℕ frames 82 posts 70000 shelf
      (record { apart = (tt, tt); ids = (tt, tt) })
