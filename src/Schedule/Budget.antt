-- ===== src/Schedule/Budget.antt =====
-- MAX_RUNS_PER_DAY of app/instadroid/scrape.py: the limit that nothing which starts a run gets past.
use mathlib.Core.List.{reverse, reverse-cons}
use mathlib.Core.Path.{subst, sym}
use instadroid.Prelude.{
  ℕ, zero, suc, ◌+◌, ◌-◌, ◌≤◌, ◌<◌, ◌≡◌, refl, ◌↔◌, Option, some, List, [], ◌∷◌, ◌++◌, arith, ltb,
  leb, ◌&&◌, if◌then◌else◌, length, get_elem?, All, All-reverse, Bool-cases, inl, inr,
}
use instadroid.Schedule.Delays.{day, window_starts, budget_wait_from}

-- Oldest first, as the rows of the table by id.
abbrev pub IsSorted : List ℕ → Type 0
IsSorted [] = Unit
IsSorted (t ∷ starts) = All (λ u. t ≤ u) starts × IsSorted starts

-- How many of the starts fall in the day up to `now`.
unfoldable pub count_window : ℕ → List ℕ → ℕ
count_window now [] = 0
count_window now (t ∷ starts) =
    let rest = count_window now starts in if leb t now && leb (now - day) t then suc rest else rest

-- the stamps of a list of starts, all readable
abbrev pub stamps : List ℕ → List (Option ℕ)
stamps [] = []
stamps (t ∷ starts) = some t ∷ stamps starts

-- The wait under the budget at `now`, with these starts recorded.
unfoldable pub budget_wait : ℕ → List ℕ → ℕ → ℕ
budget_wait limit starts now = budget_wait_from limit (window_starts (stamps starts) now) now

length-window_starts :
    (starts : List ℕ) (now : ℕ)
    → All (λ t. t ≤ now) starts
    → length (window_starts (stamps starts) now) ≡ count_window now starts
unfolding window_starts count_window
length-window_starts [] now h = refl
length-window_starts (t ∷ starts) now (le, h) = ground (arith, length-window_starts starts now h)

get_elem?-some {ℓ} :
    {A : Type ℓ} (xs : List A) (i : ℕ) → i < length xs → (x : A) × (get_elem? xs i ≡ some x)
get_elem?-some [] i h = elim h [ ]
get_elem?-some (x ∷ xs) zero h = (x, refl)
get_elem?-some (x ∷ xs) (suc i) h = get_elem?-some xs i (omega arith)

budget_wait_from-full :
    (limit : ℕ) (starts : List ℕ) (now : ℕ)
    → 0 < limit
    → limit ≤ length starts
    → (t : ℕ) × (get_elem? starts (length starts - limit) ≡ some t)
      × (budget_wait_from limit starts now ≡ (t + day - now) + 1)
unfolding budget_wait_from
budget_wait_from-full limit starts now pos le =
    let (t, e) = get_elem?-some starts (length starts - limit) (omega arith) in (t, e, ground arith)

-- No wait means that fewer runs than the limit started in the last day; and conversely.
pub budget_wait-zero_iff :
    (limit : ℕ) (starts : List ℕ) (now : ℕ)
    → 0 < limit
    → All (λ t. t ≤ now) starts
    → (budget_wait limit starts now ≡ 0) ↔ (count_window now starts < limit)
unfolding budget_wait budget_wait_from
budget_wait-zero_iff limit starts now pos h = (
  λ e. elim (Bool-cases (ltb (count_window now starts) limit)) [
    | inl less ↦ ground arith
    | inr full ↦
        let (t, _, w) =
          budget_wait_from-full limit (window_starts (stamps starts) now) now pos
            (ground (arith, length-window_starts starts now h)) in
        absurd (omega (arith, w, e))
  ],
  λ less. ground (arith, length-window_starts starts now h),
)

window_starts-window_starts :
    (starts : List ℕ) (now later : ℕ)
    → now ≤ later
    → window_starts (stamps (window_starts (stamps starts) now)) later
      ≡ window_starts (stamps starts) later
unfolding window_starts
window_starts-window_starts [] now later le = refl
window_starts-window_starts (t ∷ starts) now later le =
    ground (arith, window_starts-window_starts starts now later le)

All-window_starts :
    (P : ℕ → Type 0) (starts : List ℕ) (now : ℕ)
    → All P starts
    → All P (window_starts (stamps starts) now)
unfolding window_starts
All-window_starts P [] now h = tt
All-window_starts P (t ∷ starts) now (p, h) = elim (Bool-cases (leb (now - day) t)) [
  | inl inside ↦ rw inside (p, All-window_starts P starts now h)
  | inr outside ↦ rw outside (All-window_starts P starts now h)
]

window_starts-IsSorted :
    (starts : List ℕ) (now : ℕ) → IsSorted starts → IsSorted (window_starts (stamps starts) now)
unfolding window_starts
window_starts-IsSorted [] now h = tt
window_starts-IsSorted (t ∷ starts) now (le, h) = elim (Bool-cases (leb (now - day) t)) [
  | inl inside ↦
      rw inside (All-window_starts (λ u. t ≤ u) starts now le, window_starts-IsSorted starts now h)
  | inr outside ↦ rw outside (window_starts-IsSorted starts now h)
]

length-window_starts-le :
    (starts : List ℕ) (now : ℕ) → length (window_starts (stamps starts) now) ≤ length starts
unfolding window_starts
length-window_starts-le [] now = omega arith
length-window_starts-le (t ∷ starts) now = ground (arith, length-window_starts-le starts now)

get_elem?-All : (P : ℕ → Type 0) (xs : List ℕ) (k x : ℕ) → All P xs → get_elem? xs k ≡ some x → P x
get_elem?-All P [] k x h e = cc
get_elem?-All P (y ∷ ys) zero x (p, h) e = let e' : y ≡ x = cc in subst P e' p
get_elem?-All P (y ∷ ys) (suc k) x (p, h) e = get_elem?-All P ys k x h e

-- Once the k-th of the sorted starts is more than a day old, so are those before it.
window_starts-aged :
    (starts : List ℕ) (k t later : ℕ)
    → IsSorted starts
    → get_elem? starts k ≡ some t
    → t < later - day
    → length (window_starts (stamps starts) later) + k + 1 ≤ length starts
unfolding window_starts
window_starts-aged [] k t later s e old = cc
window_starts-aged (u ∷ starts) zero t later (le, s) e old =
    ground (arith, length-window_starts-le starts later)
window_starts-aged (u ∷ starts) (suc k) t later (le, s) e old =
    let u_le : u ≤ t = get_elem?-All (λ v. u ≤ v) starts k t le e in
    ground (arith, window_starts-aged starts k t later s e old)

-- Waiting as long as the budget says is enough: with no other run started meanwhile, no wait is left.
budget_wait-suffices :
    (limit : ℕ) (starts : List ℕ) (now : ℕ)
    → 0 < limit
    → IsSorted starts
    → budget_wait limit starts (now + budget_wait limit starts now) ≡ 0
unfolding budget_wait budget_wait_from
budget_wait-suffices limit starts now pos sorted =
    let ws = window_starts (stamps starts) now in
    elim (Bool-cases (ltb (length ws) limit)) [
      | inl less ↦
          let none_left : budget_wait limit starts now ≡ 0 = ground arith in
          let same : now + budget_wait limit starts now ≡ now = omega (arith, none_left) in
          subst (λ l. budget_wait limit starts l ≡ 0) (sym same) none_left
      | inr full ↦
          let (t, e, w) = budget_wait_from-full limit ws now pos (ground arith) in
          let later = now + budget_wait limit starts now in
          let aged =
            window_starts-aged ws (length ws - limit) t later
              (window_starts-IsSorted starts now sorted) e (omega (arith, w)) in
          ground (arith, aged, window_starts-window_starts starts now later (omega arith))
    ]

count_window-append :
    (now : ℕ) (xs ys : List ℕ)
    → count_window now (xs ++ ys) ≡ count_window now xs + count_window now ys
unfolding count_window
count_window-append now [] ys = omega arith
count_window-append now (x ∷ xs) ys = ground (arith, count_window-append now xs ys)

count_window-cons :
    (now x : ℕ) (xs : List ℕ)
    → count_window now (x ∷ xs) ≡ count_window now xs + count_window now (x ∷ [])
unfolding count_window
count_window-cons now x xs = ground arith

count_window-reverse : (now : ℕ) (xs : List ℕ) → count_window now (reverse xs) ≡ count_window now xs
count_window-reverse now [] = refl
count_window-reverse now (x ∷ xs) =
    rw (reverse-cons x xs, count_window-append now (reverse xs) (x ∷ []))
      (omega (arith, count_window-reverse now xs, count_window-cons now x xs))

-- The runs that the poll loop can have started under the budget, newest first: each one at a time at
-- which there was no wait for it.
pub data Started (limit : ℕ) : List ℕ → Type 0 where
  nothing : Started limit []
  start :
      {runs : List ℕ} (now : ℕ)
      → Started limit runs
      → All (λ t. t ≤ now) runs
      → budget_wait limit (reverse runs) now ≡ 0
      → Started limit (now ∷ runs)

count_window_mono :
    (now later : ℕ) (starts : List ℕ)
    → now ≤ later
    → All (λ t. t ≤ now) starts
    → count_window later starts ≤ count_window now starts
unfolding count_window
count_window_mono now later [] le h = omega arith
count_window_mono now later (t ∷ starts) le (p, h) =
    ground (arith, count_window_mono now later starts le h)

-- Over any day at all, the poll loop starts no more runs than the limit.
pub Started-count_window :
    {limit : ℕ} {runs : List ℕ} (now : ℕ)
    → 0 < limit
    → Started limit runs
    → count_window now runs ≤ limit
unfolding count_window
Started-count_window now pos nothing = omega arith
Started-count_window {limit} now pos (start {runs = runs} t s le wait) =
    let room =
      (budget_wait-zero_iff limit (reverse runs) t pos (All-reverse (λ u. u ≤ t) runs le)).0 wait in
    let before = Started-count_window now pos s in
    ground (
      arith,
      room,
      before,
      count_window-reverse t runs,
      λ (h : t ≤ now). count_window_mono t now runs h le,
    )
