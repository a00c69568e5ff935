-- ===== src/Retention/Kept.antt =====
-- What is left after pruning (app/instadroid/retention.py).
use instadroid.Prelude.{
  ℕ, ◌+◌, ◌≤◌, ◌≡◌, ◌⊎◌, inl, inr, refl, ap, Bool, not, ◌&&◌, ◌||◌, none, some, List, [], ◌∷◌, ◌++◌,
  arith, ltb, Text, text_eq, text_eq_iff, contains, keep, length, All, All-kept, All-mono,
  Bool-cases,
}
use instadroid.Db.Posts.{StoredPost}
use instadroid.Retention.Pruning.{
  Slide, Store, is_expired, age_of, discard_media, remove_posts, prune_expired, Chosen, choose,
  chosen_with,
}

-- With a cutoff no post is left that is older than it. Without one the store is unchanged.
pub prune_expired-posts :
    (cutoff : ℕ) (s : Store)
    → All (λ p. cutoff ≤ age_of p) (prune_expired (some cutoff) s).posts
      × (prune_expired none s ≡ s)
unfolding prune_expired remove_posts is_expired
prune_expired-posts cutoff s =
    (All-mono _ (λ p e. ground arith) (All-kept (λ p. not (ltb (age_of p) cutoff)) s.posts), refl)

contains-append :
    (f : Text) (xs ys : List Text) → contains f (xs ++ ys) ≡ (contains f xs || contains f ys)
unfolding contains
contains-append f [] ys = refl
contains-append f (x ∷ xs) ys = ground (arith, contains-append f xs ys)

contains-keep :
    (f : Text) (xs : List Text) (p : Text → Bool) → contains f (keep p xs) ≡ (contains f xs && p f)
unfolding contains keep
contains-keep f [] p = refl
contains-keep f (x ∷ xs) p = elim (Bool-cases (text_eq x f)) [
  | inl same ↦
      (let e : p x ≡ p f = ap p ((text_eq_iff x f).0 same) in
        ground (arith, same, e, contains-keep f xs p))
  | inr other ↦ ground (arith, other, contains-keep f xs p)
]

-- A discarded file is gone, and every other one stays.
discard_media-exact :
    (files disk : List Text) (f : Text)
    → contains f (discard_media files disk) ≡ (contains f disk && not (contains f files))
unfolding discard_media
discard_media-exact files disk f = contains-keep f disk (λ g. not (contains g files))

-- The size loop stops at the cap, or after every post.
choose-stops :
    (size_of : Text → ℕ) (cap : ℕ) (slides : List Slide) (posts : List StoredPost)
    (c : Chosen size_of)
    → ((choose size_of cap slides posts c).size ≤ cap)
      ⊎ (length (choose size_of cap slides posts c).removed ≡ length posts + length c.removed)
unfolding choose chosen_with
choose-stops size_of cap slides [] c = inr (omega arith)
choose-stops size_of cap slides (p ∷ posts) c = elim (Bool-cases (ltb cap c.size)) [
  | inl over ↦
      ground (arith, over, choose-stops size_of cap slides posts (chosen_with size_of slides p c))
  | inr under ↦ ground (arith, under)
]
