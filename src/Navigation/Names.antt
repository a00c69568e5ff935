-- ===== src/Navigation/Names.antt =====
-- Collecting names, each once, as scrape_following_list() of app/instadroid/navigation.py does.
use instadroid.Prelude.{
  ℕ, zero, suc, ◌+◌, ◌≤◌, ◌≡◌, refl, sym, ◌∙◌, ap, inl, inr, Bool, true, false, ◌||◌, List, [], ◌∷◌,
  ◌++◌, arith, if◌then◌else◌, Text, text_eq, text_eq_iff, contains, length, length-append,
  Bool-cases,
}
use instadroid.Navigation.Collecting.{collect}

-- no name twice
abbrev pub AreDistinct : List Text → Type 0
AreDistinct [] = Unit
AreDistinct (n ∷ names) = (contains n names ≡ false) × AreDistinct names

-- the names on the first screens, in their order
abbrev pub on_screens : (ℕ → List Text) → ℕ → List Text
on_screens names zero = []
on_screens names (suc k) = on_screens names k ++ names k

pub collect-append :
    (collected xs ys : List Text) → collect collected (xs ++ ys) ≡ collect (collect collected xs) ys
unfolding collect
collect-append collected [] ys = refl
collect-append collected (x ∷ xs) ys =
    collect-append (if contains x collected then collected else collected ++ x ∷ []) xs ys

contains-append :
    (n : Text) (xs ys : List Text) → contains n (xs ++ ys) ≡ (contains n xs || contains n ys)
unfolding contains
contains-append n [] ys = refl
contains-append n (x ∷ xs) ys = ground (arith, contains-append n xs ys)

contains-one : (n x : Text) → contains n (x ∷ []) ≡ text_eq x n
unfolding contains
contains-one n x = ground arith

-- a name is collected exactly if it was, or is among the names
pub collect-contains :
    (n : Text) (collected names : List Text)
    → contains n (collect collected names) ≡ (contains n collected || contains n names)
unfolding collect contains
collect-contains n collected [] = ground arith
collect-contains n collected (x ∷ names) = elim (Bool-cases (contains x collected)) [
  | inl e ↦ rw e (ground (arith, collect-contains n collected names, text_eq_iff x n))
  | inr e ↦ rw e (
      ground (
        arith,
        collect-contains n (collected ++ x ∷ []) names,
        contains-append n collected (x ∷ []),
      ))
]

AreDistinct-append :
    (xs : List Text) (x : Text)
    → AreDistinct xs
    → contains x xs ≡ false
    → AreDistinct (xs ++ x ∷ [])
unfolding contains
AreDistinct-append [] x h e = (refl, tt)
AreDistinct-append (y ∷ xs) x (f, h) e = (
  ground (arith, contains-append y xs (x ∷ []), text_eq_iff x y, text_eq_iff y x),
  AreDistinct-append xs x h (ground arith),
)

pub collect-AreDistinct :
    (collected names : List Text) → AreDistinct collected → AreDistinct (collect collected names)
unfolding collect
collect-AreDistinct collected [] h = h
collect-AreDistinct collected (x ∷ names) h = elim (Bool-cases (contains x collected)) [
  | inl e ↦ rw e (collect-AreDistinct collected names h)
  | inr e ↦
      rw e (collect-AreDistinct (collected ++ x ∷ []) names (AreDistinct-append collected x h e))
]

collect-grows : (collected names : List Text) → length collected ≤ length (collect collected names)
unfolding collect
collect-grows collected [] = omega arith
collect-grows collected (x ∷ names) = elim (Bool-cases (contains x collected)) [
  | inl e ↦ rw e (collect-grows collected names)
  | inr e ↦ rw e (
      omega
        (arith, collect-grows (collected ++ x ∷ []) names, length-append {0} collected (x ∷ [])))
]

pub collect-nil : (collected : List Text) → collect collected [] ≡ collected
unfolding collect
collect-nil collected = refl

collect-old :
    (collected names : List Text) (x : Text) (b : Bool)
    → contains x collected ≡ b
    → collect collected (x ∷ names) ≡ collect (if b then collected else collected ++ x ∷ []) names
unfolding collect
collect-old collected names x b e =
    ap (λ c. collect (if c then collected else collected ++ x ∷ []) names) e

pub collect-same :
    (collected names : List Text)
    → length (collect collected names) ≡ length collected
    → collect collected names ≡ collected
collect-same collected [] h = collect-nil collected
collect-same collected (x ∷ names) h = elim (Bool-cases (contains x collected)) [
  | inl e ↦
      (let same = collect-old collected names x true e in
        same ∙ collect-same collected names (ap (length {A = Text}) (sym same) ∙ h))
  | inr e ↦ absurd (
      omega (
        arith,
        h,
        ap (length {A = Text}) (collect-old collected names x false e),
        collect-grows (collected ++ x ∷ []) names,
        length-append {0} collected (x ∷ []),
      ))
]

pub on_screens-next :
    (names : ℕ → List Text) (n : ℕ) → on_screens names (n + 1) ≡ on_screens names n ++ names n
on_screens-next names n = let e : n + 1 ≡ suc n = omega arith in rw e refl
