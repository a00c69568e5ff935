-- ===== src/Profiles/Verified.antt =====
-- How app/igprofiles/base.py rates an Instagram version that a profile was not validated with.
use instadroid.Prelude.{
  ℕ, ◌≤◌, ◌<◌, ◌≡◌, refl, ◌∙◌, inl, inr, Bool, false, ◌&&◌, ◌||◌, none, some, List, [], ◌∷◌, arith,
  ltb, ◌==◌, ==_iff, if◌then◌else◌, Text, any, All, All-mono, Bool-cases, Option-cases,
}
use instadroid.Profiles.Builds.{
  Profile, major_of, with_major, majors_of, insert_once, sorted_set, gaps, suspected, confirmed,
  likely, is_major, in_range, verification,
}

abbrev IsStrict : List ℕ → Type 0
IsStrict [] = Unit
IsStrict (n ∷ ns) = All (λ m. n < m) ns × IsStrict ns

any-insert_once :
    (f : ℕ → Bool) (n : ℕ) (ms : List ℕ) → any f (insert_once n ms) ≡ (f n || any f ms)
unfolding any insert_once
any-insert_once f n [] = refl
any-insert_once f n (m ∷ ms) = elim (Bool-cases (n == m)) [
  | inl e ↦ (let same : n ≡ m = (==_iff n m).0 e in rw same (ground arith))
  | inr e ↦ ground (arith, any-insert_once f n ms)
]

any-sorted_set : (f : ℕ → Bool) (ns : List ℕ) → any f (sorted_set ns) ≡ any f ns
unfolding any sorted_set
any-sorted_set f [] = refl
any-sorted_set f (n ∷ ns) = ground (arith, any-insert_once f n (sorted_set ns), any-sorted_set f ns)

All-insert_once :
    (k n : ℕ) (ms : List ℕ) → k < n → All (λ m. k < m) ms → All (λ m. k < m) (insert_once n ms)
unfolding insert_once
All-insert_once k n [] p h = (p, tt)
All-insert_once k n (m ∷ ms) p (q, h) = elim (Bool-cases (ltb n m)) [
  | inl e ↦ rw e (p, (q, h))
  | inr e ↦ elim (Bool-cases (n == m)) [
    | inl s ↦ rw (e, s) (q, h)
    | inr s ↦ rw (e, s) (q, All-insert_once k n ms p h)
  ]
]

insert_once-IsStrict : (n : ℕ) (ms : List ℕ) → IsStrict ms → IsStrict (insert_once n ms)
unfolding insert_once
insert_once-IsStrict n [] h = (tt, tt)
insert_once-IsStrict n (m ∷ ms) (a, h) = elim (Bool-cases (ltb n m)) [
  | inl e ↦
      (let lt : n < m = ground arith in
        rw e ((lt, All-mono ms (λ k (q : m < k). omega arith) a), (a, h)))
  | inr e ↦ elim (Bool-cases (n == m)) [
    | inl s ↦ rw (e, s) (a, h)
    | inr s ↦ rw (e, s) (All-insert_once m n ms (ground arith) a, insert_once-IsStrict n ms h)
  ]
]

sorted_set-IsStrict : (ns : List ℕ) → IsStrict (sorted_set ns)
unfolding sorted_set
sorted_set-IsStrict [] = tt
sorted_set-IsStrict (n ∷ ns) = insert_once-IsStrict n (sorted_set ns) (sorted_set-IsStrict ns)

module _ (m : ℕ) where
  none-below : (n : ℕ) (ns : List ℕ) → All (λ k. n < k) ns → m ≤ n → any (λ k. ltb k m) ns ≡ false
  unfolding any
  none-below n [] h le = refl
  none-below n (k ∷ ns) (p, h) le = ground (arith, none-below n ns h le)

  -- a number between two of them lies in one of the gaps
  gaps-between :
      (ns : List ℕ)
      → IsStrict ns
      → any (λ n. n == m) ns ≡ false
      → any (in_range m) (gaps ns) ≡ (any (λ n. ltb n m) ns && any (λ n. ltb m n) ns)
  unfolding gaps any in_range
  gaps-between [] h e = refl
  gaps-between (n ∷ []) h e = ground arith
  gaps-between (low ∷ high ∷ ns) ((p, a), h) e =
      ground (arith, gaps-between (high ∷ ns) h, none-below high ns h.0)

  no-major :
      (builds : List Text)
      → any (is_major m) builds ≡ false
      → any (λ n. n == m) (majors_of builds) ≡ false
  unfolding any majors_of with_major is_major
  no-major [] h = refl
  no-major (b ∷ builds) h = elim (Option-cases (major_of (some b))) [
    | inl e ↦ ground (arith, no-major builds)
    | inr (n, e) ↦ ground (arith, no-major builds)
  ]

-- A major version that none of a profile's validated builds has is taken to work exactly if one of them
-- has a lower major version and another one a higher one.
verification-between :
    (p : Profile) (m : ℕ)
    → verification p (some m) ≡ (
        if any (is_major m) p.validated
        then some confirmed
        else if any (λ n. ltb n m) (majors_of p.validated)
            && any (λ n. ltb m n) (majors_of p.validated)
        then some likely
        else none)
unfolding verification suspected
verification-between p m = elim (Bool-cases (any (is_major m) p.validated)) [
  | inl e ↦ rw e refl
  | inr e ↦
      rw
        (
          e,
          gaps-between m (sorted_set (majors_of p.validated))
              (sorted_set-IsStrict (majors_of p.validated))
              (any-sorted_set (λ n. n == m) (majors_of p.validated) ∙ no-major m p.validated e),
          any-sorted_set (λ n. ltb n m) (majors_of p.validated),
          any-sorted_set (λ n. ltb m n) (majors_of p.validated),
        )
        refl
]
