-- ===== src/Reshare/Dropped.antt =====
-- Which stories drop_reshared_stories() of app/instadroid/reshare.py deletes.
use instadroid.Prelude.{
  ℕ, ◌+◌, ◌≡◌, ◌≢◌, refl, sym, ap, ◌∙◌, inl, inr, Bool, true, false, not, ◌&&◌, ◌||◌, Option, List,
  [], ◌∷◌, arith, leb, Text, text_eq, text_eq_refl, text_ne, any, keep, All, All-mono, All-intro,
  length, Bool-cases,
}
use instadroid.Retention.Pruning.{Story}
use instadroid.Stories.Storing.{Shelf}
use instadroid.Stories.Apart.{HaveIds, IsTidy, IsTidy-keep}
use instadroid.Reshare.Searching.{
  Frame, is_reshare, deleted, drop_one, drop_each, drop_reshared_stories,
}

keep-keep :
    {A : Type 0} (p q : A → Bool) (xs : List A) → keep p (keep q xs) ≡ keep (λ x. q x && p x) xs
unfolding keep
keep-keep p q [] = refl
keep-keep p q (x ∷ xs) = ground (arith, keep-keep p q xs)

keep-same :
    {A : Type 0} (p q : A → Bool) (xs : List A) → All (λ x. p x ≡ q x) xs → keep p xs ≡ keep q xs
unfolding keep
keep-same p q [] h = refl
keep-same p q (x ∷ xs) (e, h) = ground (arith, keep-same p q xs h)

keep-all : {A : Type 0} (xs : List A) → keep (λ x. true) xs ≡ xs
unfolding keep
keep-all [] = refl
keep-all (x ∷ xs) = ap (λ ys. x ∷ ys) (keep-all xs)

not_or : (a b : Bool) → (not a && not b) ≡ not (a || b)
not_or true b = refl
not_or false b = refl

-- one of these stories that passes the test has this id
abbrev has_id : (Story → Bool) → List Story → Text → Bool
has_id test stories id = any (λ y. test y && text_eq id y.id) stories

module _ (chosen test : Story → Bool) where
  has_id-others :
      (id : Text) (stories : List Story)
      → All (λ x. x.id ≢ id) stories
      → has_id test (keep chosen stories) id ≡ false
  unfolding any keep
  has_id-others id [] h = refl
  has_id-others id (s ∷ stories) (n, h) =
      ground (arith, has_id-others id stories h, text_ne id s.id (λ q. n (sym q)))

  has_id-later :
      (s x : Story) (stories : List Story)
      → x.id ≢ s.id
      → has_id test (keep chosen stories) x.id ≡ (chosen x && test x)
      → has_id test (keep chosen (s ∷ stories)) x.id ≡ (chosen x && test x)
  unfolding any keep
  has_id-later s x stories n e = ground (arith, text_ne x.id s.id n)

  All-later :
      (s : Story) (stories xs : List Story)
      → All (λ x. x.id ≢ s.id) xs
      → All (λ x. has_id test (keep chosen stories) x.id ≡ (chosen x && test x)) xs
      → All (λ x. has_id test (keep chosen (s ∷ stories)) x.id ≡ (chosen x && test x)) xs
  All-later s stories [] n h = tt
  All-later s stories (x ∷ xs) (n, ns) (h, hs) =
      (has_id-later s x stories n h, All-later s stories xs ns hs)

  -- where no id is there twice, only the story itself has it
  has_id-own :
      (stories : List Story)
      → HaveIds stories
      → All (λ x. has_id test (keep chosen stories) x.id ≡ (chosen x && test x)) stories
  unfolding any keep
  has_id-own [] h = tt
  has_id-own (s ∷ stories) (n, h) = (
    ground (arith, has_id-others s.id stories n, text_eq_refl s.id),
    All-later s stories stories n (has_id-own stories h),
  )

module _ (Image : Type 0) (frame_of : Text → Option (Frame Image)) (match : ℕ)
    (posts : List (Text × Image)) where
  dropped_here : Story → Bool
  dropped_here = is_reshare Image frame_of match posts

  drop_one-no :
      (c : Story) (t : Shelf × ℕ)
      → dropped_here c ≡ false
      → drop_one Image frame_of match posts c t ≡ t
  unfolding drop_one dropped_here
  drop_one-no c (s, n) e = rw e refl

  drop_one-gone :
      (c : Story) (t : Shelf × ℕ)
      → dropped_here c ≡ true
      → drop_one Image frame_of match posts c t ≡ (deleted c t.0, t.1 + 1)
  unfolding drop_one dropped_here
  drop_one-gone c (s, n) e = rw e refl

  drop_each-stories :
      (chosen : List Story) (t : Shelf × ℕ)
      → (drop_each Image frame_of match posts chosen t).0.stories
        ≡ keep (λ x. not (has_id dropped_here chosen x.id)) t.0.stories
  unfolding drop_each any deleted
  drop_each-stories [] t = sym (keep-all t.0.stories)
  drop_each-stories (c ∷ chosen) t =
      drop_each-stories chosen (drop_one Image frame_of match posts c t)
      ∙ elim (Bool-cases (dropped_here c)) [
        | inl e ↦
            rw (drop_one-gone c t e, e)
              (keep-keep (λ x. not (has_id dropped_here chosen x.id)) (λ x. not (text_eq x.id c.id))
                  t.0.stories
                ∙ keep-same _ _ t.0.stories (
                    All-intro _ (λ x. not_or (text_eq x.id c.id) (has_id dropped_here chosen x.id))
                      t.0.stories))
        | inr e ↦ rw (drop_one-no c t e, e) refl
      ]

  drop_each-counted :
      (chosen : List Story) (t : Shelf × ℕ)
      → (drop_each Image frame_of match posts chosen t).1 ≡ t.1 + length (keep dropped_here chosen)
  unfolding drop_each keep
  drop_each-counted [] t = omega arith
  drop_each-counted (c ∷ chosen) t =
      drop_each-counted chosen (drop_one Image frame_of match posts c t)
      ∙ elim (Bool-cases (dropped_here c)) [
        | inl e ↦ rw (drop_one-gone c t e, e) (omega arith)
        | inr e ↦ rw (drop_one-no c t e, e) refl
      ]

  -- Of stories with an id each, the pass deletes exactly those stored from `since` on whose frame shows a
  -- stored post with nothing around it, it returns how many they are, and no two of those left within a
  -- day look alike if none did before.
  pub drop_reshared_stories-exact :
      (since : ℕ) (s : Shelf)
      → IsTidy s.stories
      → ((drop_reshared_stories Image frame_of match posts since s).0.stories
          ≡ keep
              (λ x. not (leb since x.scraped_at && is_reshare Image frame_of match posts x))
              s.stories)
        × ((drop_reshared_stories Image frame_of match posts since s).1
            ≡ length (
                keep
                  (is_reshare Image frame_of match posts)
                  (keep (λ x. leb since x.scraped_at) s.stories)))
        × IsTidy (drop_reshared_stories Image frame_of match posts since s).0.stories
  unfolding drop_reshared_stories dropped_here
  drop_reshared_stories-exact since s h = (exact, counted, rw exact (IsTidy-keep _ s.stories h))
    where
      exact :
          (drop_each Image frame_of match posts
            (keep (λ x. leb since x.scraped_at) s.stories)
            (s, 0)).0.stories
          ≡ keep
              (λ x. not (leb since x.scraped_at && is_reshare Image frame_of match posts x))
              s.stories
      exact =
          drop_each-stories (keep (λ x. leb since x.scraped_at) s.stories) (s, 0)
          ∙ keep-same _ _ s.stories (
              All-mono s.stories (λ x e. ap not e)
                (has_id-own (λ x. leb since x.scraped_at) (is_reshare Image frame_of match posts)
                  s.stories h.ids))

      counted :
          (drop_each Image frame_of match posts
            (keep (λ x. leb since x.scraped_at) s.stories)
            (s, 0)).1
          ≡ length (
              keep
                (is_reshare Image frame_of match posts)
                (keep (λ x. leb since x.scraped_at) s.stories))
      counted =
          omega (arith, drop_each-counted (keep (λ x. leb since x.scraped_at) s.stories) (s, 0))
