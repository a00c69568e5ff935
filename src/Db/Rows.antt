-- ===== src/Db/Rows.antt =====
-- The posts table by its primary key: what a write leaves under each id.
use instadroid.Prelude.{
  ◌≡◌, refl, false, none, some, List, [], ◌∷◌, ◌++◌, arith, if◌then◌else◌, Text, text_eq,
  text_eq_iff, keep, find?, any, All, All-keep, All-append, Bool-cases, inl, inr,
}
use instadroid.Db.Posts.{StoredPost, has_id, by_id, delete_id, update_id, insert_or_replace}

pub by_id-append :
    (i : Text) (xs ys : List StoredPost)
    → by_id i (xs ++ ys) ≡ elim (by_id i xs) [ none ↦ by_id i ys | some p ↦ some p ]
unfolding by_id find?
by_id-append i [] ys = refl
by_id-append i (x ∷ xs) ys = ground (arith, by_id-append i xs ys)

pub by_id-delete_id :
    (i j : Text) (xs : List StoredPost)
    → by_id j (delete_id i xs) ≡ (if text_eq i j then none else by_id j xs)
unfolding by_id delete_id find? keep has_id
by_id-delete_id i j [] = ground arith
by_id-delete_id i j (x ∷ xs) =
    ground (arith, by_id-delete_id i j xs, text_eq_iff x.id i, text_eq_iff x.id j, text_eq_iff i j)

pub by_id-insert_or_replace :
    (row : StoredPost) (j : Text) (xs : List StoredPost)
    → by_id j (insert_or_replace row xs) ≡ (if text_eq row.id j then some row else by_id j xs)
unfolding insert_or_replace by_id find? has_id
by_id-insert_or_replace row j xs =
    ground (arith, by_id-append j (delete_id row.id xs) (row ∷ []), by_id-delete_id row.id j xs)

-- The primary key: no id twice.
abbrev pub IsKeyed : List StoredPost → Type 0
IsKeyed [] = Unit
IsKeyed (p ∷ posts) = All (λ q. text_eq q.id p.id ≡ false) posts × IsKeyed posts

text_eq_sym : (a b : Text) → text_eq a b ≡ false → text_eq b a ≡ false
text_eq_sym a b h = ground (arith, text_eq_iff a b, text_eq_iff b a)

delete_id-fresh :
    (i : Text) (xs : List StoredPost) → All (λ q. text_eq q.id i ≡ false) (delete_id i xs)
unfolding delete_id keep has_id
delete_id-fresh i [] = tt
delete_id-fresh i (x ∷ xs) = elim (Bool-cases (text_eq x.id i)) [
  | inl same ↦ rw same (delete_id-fresh i xs)
  | inr other ↦ rw other (other, delete_id-fresh i xs)
]

pub delete_id-IsKeyed : (i : Text) (xs : List StoredPost) → IsKeyed xs → IsKeyed (delete_id i xs)
unfolding delete_id keep has_id
delete_id-IsKeyed i [] h = tt
delete_id-IsKeyed i (x ∷ xs) (fresh, h) = elim (Bool-cases (text_eq x.id i)) [
  | inl same ↦ rw same (delete_id-IsKeyed i xs h)
  | inr other ↦
      rw other (All-keep (λ q. text_eq q.id x.id ≡ false) _ xs fresh, delete_id-IsKeyed i xs h)
]

IsKeyed-append :
    (xs : List StoredPost) (row : StoredPost)
    → All (λ q. text_eq q.id row.id ≡ false) xs
    → IsKeyed xs
    → IsKeyed (xs ++ row ∷ [])
IsKeyed-append [] row h k = (tt, tt)
IsKeyed-append (x ∷ xs) row (p, h) (fresh, k) =
    (All-append _ xs (row ∷ []) fresh (text_eq_sym x.id row.id p, tt), IsKeyed-append xs row h k)

-- An INSERT OR REPLACE keeps every id unique.
pub insert_or_replace-IsKeyed :
    (row : StoredPost) (xs : List StoredPost) → IsKeyed xs → IsKeyed (insert_or_replace row xs)
unfolding insert_or_replace
insert_or_replace-IsKeyed row xs h =
    IsKeyed-append (delete_id row.id xs) row (delete_id-fresh row.id xs)
      (delete_id-IsKeyed row.id xs h)

update_id-All :
    (P : Text → Type 0) (i : Text) (f : StoredPost → StoredPost)
    → ((p : StoredPost) → (f p).id ≡ p.id)
    → (xs : List StoredPost) → All (λ q. P q.id) xs
    → All (λ q. P q.id) (update_id i f xs)
unfolding update_id
update_id-All P i f same [] h = tt
update_id-All P i f same (x ∷ xs) (p, h) = elim (Bool-cases (has_id i x)) [
  | inl hit ↦ rw hit (rw (same x) p, update_id-All P i f same xs h)
  | inr miss ↦ rw miss (p, update_id-All P i f same xs h)
]

-- An UPDATE that leaves the ids alone keeps them unique.
pub update_id-IsKeyed :
    (i : Text) (f : StoredPost → StoredPost)
    → ((p : StoredPost) → (f p).id ≡ p.id)
    → (xs : List StoredPost) → IsKeyed xs
    → IsKeyed (update_id i f xs)
unfolding update_id
update_id-IsKeyed i f same [] h = tt
update_id-IsKeyed i f same (x ∷ xs) (fresh, h) =
    let rest = update_id-All (λ t. text_eq t x.id ≡ false) i f same xs fresh in
    elim (Bool-cases (has_id i x)) [
      | inl hit ↦ rw (hit, same x) (rest, update_id-IsKeyed i f same xs h)
      | inr miss ↦ rw miss (rest, update_id-IsKeyed i f same xs h)
    ]

any-none :
    (i : Text) (xs : List StoredPost)
    → any (has_id i) xs ≡ false
    → All (λ q. text_eq q.id i ≡ false) xs
unfolding any has_id
any-none i [] h = tt
any-none i (x ∷ xs) h = (ground (arith, h), any-none i xs (ground (arith, h)))

-- An INSERT is refused on a taken id, and otherwise keeps every id unique.
pub insert_row-IsKeyed :
    (row : StoredPost) (xs : List StoredPost)
    → any (has_id row.id) xs ≡ false
    → IsKeyed xs
    → IsKeyed (xs ++ row ∷ [])
insert_row-IsKeyed row xs absent k = IsKeyed-append xs row (any-none row.id xs absent) k
