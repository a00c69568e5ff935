-- ===== src/Web/Agreed.antt =====
-- The status page of app/feedserver/status.py and the poll loop of app/instadroid/scrape.py on one budget.
use mathlib.Core.List.{reverse}
use instadroid.Prelude.{
  ℕ, ◌+◌, ◌-◌, ◌≡◌, refl, ◌∙◌, ap, inl, inr, Bool, Option, none, some, List, [], ◌∷◌, arith, leb,
  ◌==◌, if◌then◌else◌, Bool-cases, Option-cases, keep, All-keep,
}
use instadroid.Db.Runs.{Run}
use instadroid.Schedule.Delays.{
  Settings, day, started, window_starts, next_allowed, budget_wait_from, budget_wait_seconds,
}
use instadroid.Schedule.Budget.{stamps, IsSorted}
use instadroid.Web.Status.{
  readable, by_time, starts_since, Budget, no_limit, left_of, used_up, budget_line,
}

window_starts-keep :
    (cells : List (Option ℕ)) (now : ℕ)
    → window_starts cells now ≡ keep (λ t. leb (now - day) t) (readable cells)
unfolding window_starts keep readable
window_starts-keep [] now = refl
window_starts-keep (none ∷ cells) now = window_starts-keep cells now
window_starts-keep (some t ∷ cells) now = ground (arith, window_starts-keep cells now)

readable-stamps : (ts : List ℕ) → readable (stamps ts) ≡ ts
unfolding readable
readable-stamps [] = refl
readable-stamps (t ∷ ts) = ap (◌∷◌ t) (readable-stamps ts)

keep_idem : (p : ℕ → Bool) (ts : List ℕ) → keep p (keep p ts) ≡ keep p ts
unfolding keep
keep_idem p [] = refl
keep_idem p (t ∷ ts) = ground (arith, keep_idem p ts)

by_time-IsSorted : (ts : List ℕ) → IsSorted ts → by_time ts ≡ ts
unfolding by_time
by_time-IsSorted [] h = refl
by_time-IsSorted (t ∷ []) h = refl
by_time-IsSorted (t ∷ u ∷ ts) ((le, _), h) = rw (by_time-IsSorted (u ∷ ts) h) (ground arith)

keep-IsSorted : (p : ℕ → Bool) (ts : List ℕ) → IsSorted ts → IsSorted (keep p ts)
unfolding keep
keep-IsSorted p [] h = tt
keep-IsSorted p (t ∷ ts) (le, h) = elim (Bool-cases (p t)) [
  | inl e ↦ rw e (All-keep _ p ts le, keep-IsSorted p ts h)
  | inr e ↦ rw e (keep-IsSorted p ts h)
]

-- the rows that the page queries give the window that the poll loop sees
window_starts-starts_since :
    (cells : List (Option ℕ)) (now : ℕ)
    → IsSorted (readable cells)
    → window_starts (starts_since (now - day) cells) now ≡ window_starts cells now
unfolding starts_since
window_starts-starts_since cells now h =
    let p : ℕ → Bool = λ t. leb (now - day) t in
    rw
      (
        window_starts-keep cells now,
        window_starts-keep (stamps (by_time (keep p (readable cells)))) now,
        readable-stamps (by_time (keep p (readable cells))),
        by_time-IsSorted (keep p (readable cells)) (keep-IsSorted p (readable cells) h),
      )
      (keep_idem p (readable cells))

-- the wait that a line stands for
abbrev pub wait_of : Budget → ℕ → ℕ
wait_of no_limit now = 0
wait_of (left_of left limit) now = 0
wait_of (used_up limit none) now = 0
wait_of (used_up limit (some t)) now = (t - now) + 1

wait_of-budget_line :
    (limit : ℕ) (cells : List (Option ℕ)) (now : ℕ)
    → wait_of (budget_line limit cells now) now
      ≡ (if limit == 0 then 0 else budget_wait_from limit (window_starts cells now) now)
unfolding budget_line budget_wait_from
wait_of-budget_line limit cells now =
    elim (Option-cases (next_allowed (window_starts cells now) limit)) [
      | inl e ↦ ground arith
      | inr (t, e) ↦ ground arith
    ]

-- Where the runs started in the order of the table, the budget line of the status page and the poll loop
-- agree: with runs left, or no limit, the loop would start one without a wait, and with none left it
-- waits until a second after the time that the page names.
pub budget_line-agrees :
    (s : Settings) (runs : List Run) (now : ℕ)
    → IsSorted (readable (reverse (started runs)))
    → wait_of
        (budget_line s.max_runs_per_day (starts_since (now - day) (reverse (started runs))) now)
        now
      ≡ budget_wait_seconds s runs now
unfolding budget_wait_seconds
budget_line-agrees s runs now h =
    wait_of-budget_line s.max_runs_per_day (starts_since (now - day) (reverse (started runs))) now
    ∙ rw (window_starts-starts_since (reverse (started runs)) now h) refl
