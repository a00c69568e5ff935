-- ===== src/Profiles/Covering.antt =====
-- Which profile of app/igprofiles/__init__.py covers a version of Instagram.
use instadroid.Prelude.{
  ℕ, ◌≤◌, ◌<◌, ◌≡◌, refl, sym, inl, inr, Bool, true, ◌&&◌, Option, none, some, or_else, List, [],
  ◌∷◌, ◌++◌, arith, leb, ◌==◌, ==_iff, if◌then◌else◌, find?, any, All, All-mono, Bool-cases,
}
use mathlib.Core.List.{reverse, reverse-cons, Memᴰ}
use instadroid.Profiles.Builds.{Profile}
use instadroid.Profiles.Choice.{
  Directory, Library, min_major, insert_number, listed, profile_number, available, checked,
  load_number, covering,
}

abbrev pub IsAscending : List ℕ → Type 0
IsAscending [] = Unit
IsAscending (n ∷ ns) = All (λ m. n ≤ m) ns × IsAscending ns

All-insert_number :
    (k n : ℕ) (ns : List ℕ) → k ≤ n → All (λ m. k ≤ m) ns → All (λ m. k ≤ m) (insert_number n ns)
unfolding insert_number
All-insert_number k n [] p h = (p, tt)
All-insert_number k n (m ∷ ms) p (q, h) = elim (Bool-cases (leb n m)) [
  | inl e ↦ rw e (p, (q, h))
  | inr e ↦ rw e (q, All-insert_number k n ms p h)
]

insert_number-IsAscending :
    (n : ℕ) (ns : List ℕ) → IsAscending ns → IsAscending (insert_number n ns)
unfolding insert_number
insert_number-IsAscending n [] h = (tt, tt)
insert_number-IsAscending n (m ∷ ms) (a, h) = elim (Bool-cases (leb n m)) [
  | inl e ↦
      (let le : n ≤ m = ground arith in
        rw e ((le, All-mono ms (λ k (q : m ≤ k). omega arith) a), (a, h)))
  | inr e ↦ rw e (All-insert_number m n ms (ground arith) a, insert_number-IsAscending n ms h)
]

listed-IsAscending :
    (o : Option ℕ) (b : Bool) (ns : List ℕ) → IsAscending ns → IsAscending (listed o b ns)
unfolding listed
listed-IsAscending none b ns h = h
listed-IsAscending (some n) b ns h = elim (Bool-cases (b && leb min_major n)) [
  | inl e ↦ rw e (insert_number-IsAscending n ns h)
  | inr e ↦ rw e h
]

pub available-IsAscending : (dirs : List Directory) → IsAscending (available dirs)
unfolding available
available-IsAscending [] = tt
available-IsAscending (d ∷ dirs) =
    listed-IsAscending (profile_number d.name) d.has_init (available dirs)
      (available-IsAscending dirs)

find?-append :
    (p : ℕ → Bool) (xs ys : List ℕ) → find? p (xs ++ ys) ≡ or_else (find? p xs) (find? p ys)
unfolding find?
find?-append p [] ys = refl
find?-append p (x ∷ xs) ys = ground (arith, find?-append p xs ys)

covering-cons :
    (n m : ℕ) (ns : List ℕ)
    → covering (n ∷ ns) (some m) ≡ or_else (covering ns (some m)) (if leb n m then some n else none)
unfolding covering find?
covering-cons n m ns = rw (reverse-cons n ns) (find?-append (λ k. leb k m) (reverse ns) (n ∷ []))

le_of_Memᴰ : (n j : ℕ) (ns : List ℕ) → All (λ k. n ≤ k) ns → Memᴰ j ns → n ≤ j
le_of_Memᴰ n j [] h mem = elim mem [ ]
le_of_Memᴰ n j (k ∷ ns) (a, h) (Memᴰ.head e) = omega (arith, e)
le_of_Memᴰ n j (k ∷ ns) (a, h) (Memᴰ.tail mem) = le_of_Memᴰ n j ns h mem

-- the highest of these numbers at or below `m`, if there is one
abbrev pub IsHighest : ℕ → List ℕ → Option ℕ → Type 0
IsHighest m names none = All (λ k. m < k) names
IsHighest m names (some n) = (n ≤ m) × Memᴰ n names × All (λ k. k ≤ m → k ≤ n) names

-- The profile that covers an Instagram version is one of those there are, at or below it, and no other
-- one at or below it is higher; there is none only if every profile is above the version.
pub covering-IsHighest :
    (names : List ℕ) (m : ℕ) → IsAscending names → IsHighest m names (covering names (some m))
unfolding covering find?
covering-IsHighest [] m h = tt
covering-IsHighest (n ∷ ns) m (a, h) =
    rw (covering-cons n m ns) (join (covering ns (some m)) (covering-IsHighest ns m h))
  where
    join :
        (o : Option ℕ)
        → IsHighest m ns o
        → IsHighest m (n ∷ ns) (or_else o (if leb n m then some n else none))
    join none k = elim (Bool-cases (leb n m)) [
      | inl e ↦ rw e (
        ground arith,
        Memᴰ.head refl,
        (λ c. omega arith, All-mono ns (λ x (q : m < x) c. absurd (omega arith)) k),
      )
      | inr e ↦ rw e (ground arith, k)
    ]
    join (some j) (le, mem, k) = (le, Memᴰ.tail mem, (λ c. le_of_Memᴰ n j ns a mem, k))

any-Memᴰ : (n : ℕ) (names : List ℕ) → any (λ m. m == n) names ≡ true → Memᴰ n names
unfolding any
any-Memᴰ n [] h = ground arith
any-Memᴰ n (m ∷ names) h = elim (Bool-cases (m == n)) [
  | inl e ↦ Memᴰ.head (sym ((==_iff m n).0 e))
  | inr e ↦ Memᴰ.tail (any-Memᴰ n names (ground arith))
]

checked-major : (n : ℕ) (o : Option Profile) (p : Profile) → checked n o ≡ some p → p.major ≡ n
unfolding checked
checked-major n none p h = ground arith
checked-major n (some q) p h = ground arith

pub load_number-Memᴰ :
    (lib : Library) (n : ℕ) (p : Profile)
    → load_number lib n ≡ some p
    → Memᴰ p.major (available lib.dirs) × (p.major ≡ n)
unfolding load_number
load_number-Memᴰ lib n p h =
    elim (Bool-cases (leb min_major n && any (λ m. m == n) (available lib.dirs))) [
      | inr e ↦ ground arith
      | inl e ↦
          (let same : p.major ≡ n = checked-major n (lib.imported n) p (ground arith) in
            (rw same (any-Memᴰ n (available lib.dirs) (ground arith)), same))
    ]
