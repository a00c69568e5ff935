-- ===== src/Pages/Order.antt =====
-- ORDER BY sort_at DESC, id DESC, and the comparison of row values `(sort_at, id) < (?, ?)`. Texts
-- compare by their code points, as SQLite's BINARY does on UTF-8.
use mathlib.Core.List.{Perm}
use mathlib.Core.List.Perm
use instadroid.Prelude.{
  ℕ, ◌+◌, ◌≡◌, refl, length, inl, inr, Bool, true, false, ◌&&◌, ◌||◌, List, [], ◌∷◌, arith, ltb,
  ◌==◌, if◌then◌else◌, Bool-cases, Text, text_eq, keep, All, All-mono, All-keep,
}
use instadroid.Db.Posts.{StoredPost}
use instadroid.Db.Rows.{IsKeyed}
use instadroid.Retention.Pruning.{age_of}

unfoldable pub text_less : Text → Text → Bool
text_less [] [] = false
text_less [] (y ∷ t) = true
text_less (x ∷ s) [] = false
text_less (x ∷ s) (y ∷ t) = ltb x y || ((x == y) && text_less s t)

-- a row before a cursor, in the order of time and id
unfoldable pub precedes : ℕ × Text → StoredPost → Bool
precedes (time, id) p = ltb (age_of p) time || ((age_of p == time) && text_less p.id id)

abbrev pub sort_place : StoredPost → ℕ × Text
sort_place p = (age_of p, p.id)

insert_newest : StoredPost → List StoredPost → List StoredPost
insert_newest p [] = p ∷ []
insert_newest p (q ∷ qs) = if precedes (sort_place p) q then p ∷ q ∷ qs else q ∷ insert_newest p qs

unfoldable pub newest_first : List StoredPost → List StoredPost
unfolding insert_newest
newest_first [] = []
newest_first (p ∷ posts) = insert_newest p (newest_first posts)

-- every row comes before the ones above it
abbrev pub IsNewestFirst : List StoredPost → Type 0
IsNewestFirst [] = Unit
IsNewestFirst (p ∷ posts) = All (λ q. precedes (sort_place p) q ≡ true) posts × IsNewestFirst posts

text_less_irrefl : (s : Text) → text_less s s ≡ false
unfolding text_less
text_less_irrefl [] = refl
text_less_irrefl (c ∷ s) = ground (arith, text_less_irrefl s)

text_less_trans :
    (s t u : Text) → text_less s t ≡ true → text_less t u ≡ true → text_less s u ≡ true
unfolding text_less
text_less_trans [] [] u h k = cc
text_less_trans [] (y ∷ t) [] h k = k
text_less_trans [] (y ∷ t) (z ∷ u) h k = refl
text_less_trans (x ∷ s) [] u h k = cc
text_less_trans (x ∷ s) (y ∷ t) [] h k = k
text_less_trans (x ∷ s) (y ∷ t) (z ∷ u) h k = ground (arith, text_less_trans s t u)

text_less_total : (s t : Text) → text_eq s t ≡ false → text_less s t ≡ false → text_less t s ≡ true
unfolding text_less text_eq
text_less_total [] [] h k = cc
text_less_total [] (y ∷ t) h k = cc
text_less_total (x ∷ s) [] h k = refl
text_less_total (x ∷ s) (y ∷ t) h k = ground (arith, text_less_total s t)

pub precedes_irrefl : (p : StoredPost) → precedes (sort_place p) p ≡ false
unfolding precedes
precedes_irrefl p = ground (arith, text_less_irrefl p.id)

pub precedes_trans :
    (c : ℕ × Text) (p q : StoredPost)
    → precedes c p ≡ true
    → precedes (sort_place p) q ≡ true
    → precedes c q ≡ true
unfolding precedes
precedes_trans (time, id) p q h k = ground (arith, text_less_trans q.id p.id id)

precedes_total :
    (p q : StoredPost)
    → text_eq q.id p.id ≡ false
    → precedes (sort_place p) q ≡ false
    → precedes (sort_place q) p ≡ true
unfolding precedes
precedes_total p q h k = ground (arith, text_less_total q.id p.id)

insert_newest-All {ℓ} :
    (P : StoredPost → Type ℓ) (p : StoredPost) (xs : List StoredPost)
    → P p
    → All P xs
    → All P (insert_newest p xs)
unfolding insert_newest
insert_newest-All P p [] h k = (h, k)
insert_newest-All P p (x ∷ xs) h (k, ks) = elim (Bool-cases (precedes (sort_place p) x)) [
  | inl e ↦ rw e (h, (k, ks))
  | inr e ↦ rw e (k, insert_newest-All P p xs h ks)
]

pub newest_first-All {ℓ} :
    (P : StoredPost → Type ℓ) (xs : List StoredPost) → All P xs → All P (newest_first xs)
unfolding newest_first
newest_first-All P [] h = tt
newest_first-All P (x ∷ xs) (h, hs) =
    insert_newest-All P x (newest_first xs) h (newest_first-All P xs hs)

insert_newest-IsNewestFirst :
    (p : StoredPost) (xs : List StoredPost)
    → All (λ q. text_eq q.id p.id ≡ false) xs
    → IsNewestFirst xs
    → IsNewestFirst (insert_newest p xs)
unfolding insert_newest
insert_newest-IsNewestFirst p [] fresh h = (tt, tt)
insert_newest-IsNewestFirst p (x ∷ xs) (ne, fresh) (h, hs) =
    elim (Bool-cases (precedes (sort_place p) x)) [
      | inl e ↦ rw e ((e, All-mono xs (λ q k. precedes_trans (sort_place p) x q e k) h), (h, hs))
      | inr e ↦ rw e (
        insert_newest-All _ p xs (precedes_total p x ne e) h,
        insert_newest-IsNewestFirst p xs fresh hs,
      )
    ]

pub newest_first-IsNewestFirst :
    (xs : List StoredPost) → IsKeyed xs → IsNewestFirst (newest_first xs)
unfolding newest_first
newest_first-IsNewestFirst [] h = tt
newest_first-IsNewestFirst (x ∷ xs) (fresh, h) =
    insert_newest-IsNewestFirst x (newest_first xs) (newest_first-All _ xs fresh)
      (newest_first-IsNewestFirst xs h)

insert_newest-perm : (p : StoredPost) (xs : List StoredPost) → Perm (insert_newest p xs) (p ∷ xs)
unfolding insert_newest
insert_newest-perm p [] = Perm.refl (p ∷ [])
insert_newest-perm p (x ∷ xs) = elim (Bool-cases (precedes (sort_place p) x)) [
  | inl e ↦ rw e (Perm.refl (p ∷ x ∷ xs))
  | inr e ↦ rw e (Perm.trans (Perm.cons x (insert_newest-perm p xs)) (Perm.swap p x xs))
]

length-insert_newest :
    (p : StoredPost) (xs : List StoredPost) → length (insert_newest p xs) ≡ length xs + 1
unfolding insert_newest
length-insert_newest p [] = omega arith
length-insert_newest p (x ∷ xs) = ground (arith, length-insert_newest p xs)

pub length-newest_first : (xs : List StoredPost) → length (newest_first xs) ≡ length xs
unfolding newest_first
length-newest_first [] = refl
length-newest_first (x ∷ xs) =
    omega (arith, length-insert_newest x (newest_first xs), length-newest_first xs)

pub newest_first-perm : (xs : List StoredPost) → Perm (newest_first xs) xs
unfolding newest_first
newest_first-perm [] = Perm.refl []
newest_first-perm (x ∷ xs) =
    Perm.trans (insert_newest-perm x (newest_first xs)) (Perm.cons x (newest_first-perm xs))

insert_newest-front :
    (p : StoredPost) (xs : List StoredPost)
    → All (λ q. precedes (sort_place p) q ≡ true) xs
    → insert_newest p xs ≡ p ∷ xs
unfolding insert_newest
insert_newest-front p [] h = refl
insert_newest-front p (x ∷ xs) (h, hs) = rw h

insert_newest-keep :
    (f : StoredPost → Bool) (p : StoredPost) (xs : List StoredPost)
    → IsNewestFirst xs
    → keep f (insert_newest p xs) ≡ (if f p then insert_newest p (keep f xs) else keep f xs)
unfolding insert_newest keep
insert_newest-keep f p [] h = refl
insert_newest-keep f p (x ∷ xs) (h, hs) = elim (Bool-cases (precedes (sort_place p) x)) [
  | inl e ↦
      let later =
        All-keep _ f (x ∷ xs) (e, All-mono xs (λ q k. precedes_trans (sort_place p) x q e k) h) in
      ground (arith, insert_newest-front p (keep f (x ∷ xs)) later)
  | inr e ↦ rw e (ground (arith, insert_newest-keep f p xs hs))
]

pub keep-IsKeyed : (f : StoredPost → Bool) (xs : List StoredPost) → IsKeyed xs → IsKeyed (keep f xs)
unfolding keep
keep-IsKeyed f [] h = tt
keep-IsKeyed f (x ∷ xs) (fresh, h) = elim (Bool-cases (f x)) [
  | inl e ↦ rw e (All-keep _ f xs fresh, keep-IsKeyed f xs h)
  | inr e ↦ rw e (keep-IsKeyed f xs h)
]

-- a filter before ORDER BY selects as one behind it
pub newest_first-keep :
    (f : StoredPost → Bool) (xs : List StoredPost)
    → IsKeyed xs
    → newest_first (keep f xs) ≡ keep f (newest_first xs)
unfolding newest_first keep
newest_first-keep f [] h = refl
newest_first-keep f (x ∷ xs) (fresh, h) =
    let step = insert_newest-keep f x (newest_first xs) (newest_first-IsNewestFirst xs h) in
    rw step (ground (arith, newest_first-keep f xs h))
