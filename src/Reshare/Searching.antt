-- ===== src/Reshare/Searching.antt =====
-- find_reshared() and drop_reshared_stories() of app/instadroid/reshare.py. What Frame computes of the
-- pixels with Pillow is a record: scores, scales and heights are whole numbers of some small unit. A
-- story's file is named after its id, so the pass reads the frames that were there when it began.
use instadroid.Prelude.{
  ℕ, ◌+◌, Bool, true, false, not, ◌&&◌, ◌||◌, Option, none, some, List, [], ◌∷◌, leb, ltb, ◌==◌,
  if◌then◌else◌, Text, text_eq, keep, take,
}
use instadroid.Retention.Pruning.{Story, file_of, discard_media}
use instadroid.Stories.Storing.{Shelf}

pub record Placement : Type 0 where
  pub score : ℕ
  pub scale : ℕ
  pub top : ℕ

abbrev pub candidates : ℕ
candidates = 5

-- DELETE FROM stories WHERE id = ?, and discard_media()
unfoldable pub deleted : Story → Shelf → Shelf
deleted x s = record {
  stories = keep (λ y. not (text_eq y.id x.id)) s.stories;
  files = discard_media (file_of x.media_file) s.files;
}

module _ (Image : Type 0) where
  -- Frame.search(), Frame.refine() and Frame.plain_around()
  pub record Frame : Type 0 where
    pub search : Image → Option Placement
    pub refine : Image → Placement → Placement
    pub plain_around : Placement → Image → Bool

  -- one entry of `placed`, with its post
  pub record Placed : Type 0 where
    pub score : ℕ
    pub index : ℕ
    pub near : Placement
    pub post : Text × Image

  unfoldable pub place : ℕ → Text × Image → Option Placement → List Placed → List Placed
  place index post none placed = placed
  place index post (some near) placed =
      record { score = near.score; index = index; near = near; post = post } ∷ placed

  unfoldable pub placed_from : Frame → ℕ → List (Text × Image) → List Placed
  unfolding place
  placed_from frame index [] = []
  placed_from frame index (p ∷ posts) =
      place index p (frame.search p.1) (placed_from frame (index + 1) posts)

  -- the order of the tuples
  unfoldable pub is_less : Placed → Placed → Bool
  is_less a b = ltb a.score b.score || (a.score == b.score && ltb a.index b.index)

  unfoldable pub insert_placed : Placed → List Placed → List Placed
  insert_placed a [] = a ∷ []
  insert_placed a (b ∷ placed) = if is_less a b then b ∷ insert_placed a placed else a ∷ b ∷ placed

  unfoldable pub largest_first : List Placed → List Placed
  unfolding insert_placed
  largest_first [] = []
  largest_first (a ∷ placed) = insert_placed a (largest_first placed)

  -- heapq.nlargest(n, placed)
  unfoldable pub nlargest : ℕ → List Placed → List Placed
  nlargest n placed = take n (largest_first placed)

  -- `best is None or score > best[1].score`
  unfoldable pub beats : ℕ → Option ((Text × Image) × Placement) → Bool
  beats score none = true
  beats score (some (post, exact)) = ltb exact.score score

  -- the better of the best so far and a closer look, if that is a match
  unfoldable pub better :
      ℕ
      → Text × Image
      → Placement
      → Option ((Text × Image) × Placement)
      → Option ((Text × Image) × Placement)
  better match post exact best =
      if leb match exact.score && beats exact.score best then some (post, exact) else best

  unfoldable pub best_of :
      Frame
      → ℕ
      → List Placed
      → Option ((Text × Image) × Placement)
      → Option ((Text × Image) × Placement)
  best_of frame match [] best = best
  best_of frame match (c ∷ placed) best =
      best_of frame match placed (better match c.post (frame.refine c.post.1 c.near) best)

  -- find_reshared(), with MATCH
  unfoldable pub find_reshared :
      Frame → ℕ → List (Text × Image) → Option ((Text × Image) × Placement)
  find_reshared frame match posts =
      best_of frame match (nlargest candidates (placed_from frame 0 posts)) none

  module _ (frame_of : Text → Option Frame) (match : ℕ) (posts : List (Text × Image)) where
    -- whether the frame in a file shows a stored post with nothing around it
    unfoldable pub shows_post : Text → Bool
    shows_post file = elim (frame_of file) [
      | none ↦ false
      | some frame ↦ elim (find_reshared frame match posts) [
        | none ↦ false
        | some (post, card) ↦ frame.plain_around card post.1
      ]
    ]

    unfoldable pub is_reshare : Story → Bool
    is_reshare s = elim s.media_file [
      | none ↦ false
      | some [] ↦ false
      | some (c ∷ file) ↦ shows_post (c ∷ file)
    ]

    unfoldable pub drop_one : Story → Shelf × ℕ → Shelf × ℕ
    drop_one x (s, dropped) = if is_reshare x then (deleted x s, dropped + 1) else (s, dropped)

    unfoldable pub drop_each : List Story → Shelf × ℕ → Shelf × ℕ
    drop_each [] so_far = so_far
    drop_each (x ∷ stories) so_far = drop_each stories (drop_one x so_far)

    -- drop_reshared_stories(), with the number of stories deleted
    unfoldable pub drop_reshared_stories : ℕ → Shelf → Shelf × ℕ
    drop_reshared_stories since s = drop_each (keep (λ x. leb since x.scraped_at) s.stories) (s, 0)
