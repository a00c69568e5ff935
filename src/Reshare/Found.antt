-- ===== src/Reshare/Found.antt =====
-- Which post find_reshared() of app/instadroid/reshare.py finds in a frame.
use instadroid.Prelude.{
  ℕ, zero, suc, ◌+◌, ◌≤◌, ◌<◌, ◌≡◌, refl, inl, inr, ◌&&◌, Option, none, some, List, [], ◌∷◌, arith,
  leb, ltb, Text, take, All, All-mono, Bool-cases, Option-cases,
}
use mathlib.Core.List.{Memᴰ}
use instadroid.Reshare.Searching.{
  Placement, Frame, Placed, place, placed_from, insert_placed, largest_first, nlargest, candidates,
  is_less, beats, better, best_of, find_reshared,
}

All-take : {A : Type 0} (P : A → Type 0) (n : ℕ) (xs : List A) → All P xs → All P (take n xs)
All-take P zero xs h = tt
All-take P (suc n) [] h = tt
All-take P (suc n) (x ∷ xs) (p, h) = (p, All-take P n xs h)

module _ (Image : Type 0) (frame : Frame Image) (match : ℕ) where
  -- a placement of one of the posts, where the search put it
  pub record IsPlaced (posts : List (Text × Image)) (c : Placed Image) : Type 0 where
    pub stored : Memᴰ c.post posts
    pub searched : frame.search c.post.1 ≡ some c.near

  placed_from-IsPlaced :
      (index : ℕ) (posts : List (Text × Image))
      → All (IsPlaced posts) (placed_from Image frame index posts)
  unfolding placed_from place
  placed_from-IsPlaced index [] = tt
  placed_from-IsPlaced index (p ∷ posts) =
      let later =
        All-mono (placed_from Image frame (index + 1) posts)
          (λ c (h : IsPlaced posts c). record {
            stored = Memᴰ.tail h.stored;
            searched = h.searched;
          })
          (placed_from-IsPlaced (index + 1) posts) in
      elim (Option-cases (frame.search p.1)) [
        | inl e ↦ rw e later
        | inr (near, e) ↦ rw e (record { stored = Memᴰ.head refl; searched = e }, later)
      ]

  All-insert_placed :
      (P : Placed Image → Type 0) (a : Placed Image) (placed : List (Placed Image))
      → P a
      → All P placed
      → All P (insert_placed Image a placed)
  unfolding insert_placed
  All-insert_placed P a [] p h = (p, tt)
  All-insert_placed P a (b ∷ placed) p (q, h) = elim (Bool-cases (is_less Image a b)) [
    | inl e ↦ rw e (q, All-insert_placed P a placed p h)
    | inr e ↦ rw e (p, (q, h))
  ]

  All-largest_first :
      (P : Placed Image → Type 0) (placed : List (Placed Image))
      → All P placed
      → All P (largest_first Image placed)
  unfolding largest_first
  All-largest_first P [] h = tt
  All-largest_first P (a ∷ placed) (p, h) = All-insert_placed P a _ p (All-largest_first P placed h)

  -- a score that is no match, or not better than the best
  abbrev pub Covers : Option ((Text × Image) × Placement) → ℕ → Type 0
  Covers none n = n < match
  Covers (some (p, exact)) n = match ≤ n → n ≤ exact.score

  -- a match: a closer look at one of the posts, near where the search put it
  abbrev pub IsMatch : List (Text × Image) → Option ((Text × Image) × Placement) → Type 0
  IsMatch posts none = Unit
  IsMatch posts (some (p, exact)) =
      (near : Placement) × Memᴰ p posts
      × (frame.search p.1 ≡ some near)
      × (exact ≡ frame.refine p.1 near)
      × (match ≤ exact.score)

  better-Covers :
      (p : Text × Image) (exact : Placement) (best : Option ((Text × Image) × Placement)) (n : ℕ)
      → Covers best n
      → Covers (better Image match p exact best) n
  unfolding better beats
  better-Covers p exact none n h = elim (Bool-cases (leb match exact.score)) [
    | inl e ↦ rw e (λ k. absurd (omega arith))
    | inr e ↦ rw e h
  ]
  better-Covers p exact (some (q, old)) n h =
      elim (Bool-cases (leb match exact.score && ltb old.score exact.score)) [
        | inl e ↦ rw e (λ k. ground (arith, h k))
        | inr e ↦ rw e h
      ]

  better-own :
      (p : Text × Image) (exact : Placement) (best : Option ((Text × Image) × Placement))
      → Covers (better Image match p exact best) exact.score
  unfolding better beats
  better-own p exact none = elim (Bool-cases (leb match exact.score)) [
    | inl e ↦ rw e (λ k. omega arith)
    | inr e ↦ rw e (ground arith)
  ]
  better-own p exact (some (q, old)) =
      elim (Bool-cases (leb match exact.score && ltb old.score exact.score)) [
        | inl e ↦ rw e (λ k. omega arith)
        | inr e ↦ rw e (λ k. ground arith)
      ]

  better-IsMatch :
      (posts : List (Text × Image)) (c : Placed Image) (best : Option ((Text × Image) × Placement))
      → IsPlaced posts c
      → IsMatch posts best
      → IsMatch posts (better Image match c.post (frame.refine c.post.1 c.near) best)
  unfolding better
  better-IsMatch posts c best h m =
      let exact = frame.refine c.post.1 c.near in
      elim (Bool-cases (leb match exact.score && beats Image exact.score best)) [
        | inl e ↦ rw e (c.near, h.stored, h.searched, refl, ground arith)
        | inr e ↦ rw e m
      ]

  best_of-Covers :
      (placed : List (Placed Image)) (best : Option ((Text × Image) × Placement)) (n : ℕ)
      → Covers best n
      → Covers (best_of Image frame match placed best) n
  unfolding best_of
  best_of-Covers [] best n h = h
  best_of-Covers (c ∷ placed) best n h = best_of-Covers placed _ n (better-Covers c.post _ best n h)

  best_of-All :
      (placed : List (Placed Image)) (best : Option ((Text × Image) × Placement))
      → All
          (λ c. Covers (best_of Image frame match placed best) (frame.refine c.post.1 c.near).score)
          placed
  unfolding best_of
  best_of-All [] best = tt
  best_of-All (c ∷ placed) best =
      (best_of-Covers placed _ _ (better-own c.post _ best), best_of-All placed _)

  best_of-IsMatch :
      (posts : List (Text × Image)) (placed : List (Placed Image))
      (best : Option ((Text × Image) × Placement))
      → All (IsPlaced posts) placed
      → IsMatch posts best
      → IsMatch posts (best_of Image frame match placed best)
  unfolding best_of
  best_of-IsMatch posts [] best h m = m
  best_of-IsMatch posts (c ∷ placed) best (p, h) m =
      best_of-IsMatch posts placed _ h (better-IsMatch posts c best p m)

  -- What is found in a frame is a stored post, where a closer look around the place that the search gave
  -- it scores at least MATCH, and no candidate's closer look scores better; nothing is found only if
  -- none of the candidates' scores reaches MATCH.
  pub find_reshared-IsMatch :
      (posts : List (Text × Image))
      → IsMatch posts (find_reshared Image frame match posts)
        × All
            (λ c.
              Covers (find_reshared Image frame match posts) (frame.refine c.post.1 c.near).score)
            (nlargest Image candidates (placed_from Image frame 0 posts))
  unfolding find_reshared nlargest
  find_reshared-IsMatch posts =
      let placed = placed_from Image frame 0 posts in
      let chosen : All (IsPlaced posts) (take candidates (largest_first Image placed)) =
        All-take (IsPlaced posts) candidates (largest_first Image placed)
          (All-largest_first (IsPlaced posts) placed (placed_from-IsPlaced 0 posts)) in
      (best_of-IsMatch posts _ none chosen tt, best_of-All _ none)
