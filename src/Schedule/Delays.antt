-- ===== src/Schedule/Delays.antt =====
-- app/instadroid/scrape.py: the waits before the first run, between runs and under the daily budget.
use mathlib.Core.List.{reverse}
use mathlib.Core.Option
use instadroid.Prelude.{
  ℕ, zero, ◌+◌, ◌-◌, ◌*◌, ◌/◌, ◌^◌, min, max, Bool, true, false, ◌&&◌, Option, none, some, List, [],
  ◌∷◌, ltb, leb, ◌==◌, if◌then◌else◌, Text, contains, length, get_elem?,
}
use instadroid.Schedule.Sample.{Distribution, Dice, sample_duration}
use instadroid.Db.Runs.{Run, consecutive_failures}

abbrev pub day : ℕ
day = 86400

-- The settings; `retry_delays` is RETRY_DELAYS_MINUTES in seconds.
pub record Settings : Type 0 where
  pub distribution : Distribution
  pub scrape_on_startup : Bool
  pub poll_min : ℕ
  pub poll_max : ℕ
  pub retry_delays : List ℕ
  pub backoff_max : ℕ
  pub max_runs_per_day : ℕ

-- `factor` of poll_interval_seconds(): 2, 4, 8, ...
unfoldable pub backoff_factor : ℕ → ℕ
backoff_factor failures = 2 ^ min (failures - 1) 16

-- the interval that a draw of `seconds` becomes
unfoldable pub widened : Settings → ℕ → ℕ → ℕ
widened s failures seconds =
    if ltb 1 failures && ltb 0 s.backoff_max
    then min (seconds * backoff_factor failures) (max s.backoff_max seconds)
    else seconds

unfoldable pub poll_interval_seconds : Settings → Dice → Bool → ℕ → ℕ
poll_interval_seconds s d quiet failures =
    widened s failures (sample_duration s.distribution d quiet s.poll_min s.poll_max)

-- What ended a run, as the loop sees it: nothing, a transient device failure, or any other error.
pub data Ending : Type 0 where
  success transient fatal : Ending

is_transient : Ending → Bool
is_transient transient = true
is_transient _ = false

-- the jittered retry delay, up to half as long again
retry_delay : Settings → Dice → Bool → ℕ → ℕ
retry_delay s d quiet delay = sample_duration s.distribution d quiet delay (delay * 3 / 2)

unfoldable pub next_sleep_seconds : Settings → Dice → Bool → Ending → ℕ → ℕ → ℕ × ℕ
unfolding is_transient retry_delay
next_sleep_seconds s d quiet ending attempt failures =
    let poll : ℕ × ℕ = (poll_interval_seconds s d quiet failures, zero) in
    if is_transient ending
    then elim (get_elem? s.retry_delays attempt) [
      | none ↦ poll
      | some delay ↦ (retry_delay s d quiet delay, attempt + 1)
    ]
    else poll

-- error.split("(", 1)[0]
unfoldable pub before_paren : Text → Text
before_paren [] = []
before_paren (c ∷ s) = if c == b'(' then [] else c ∷ before_paren s

not_empty : Text → Bool
not_empty [] = false
not_empty (c ∷ s) = true

-- the first delay, for a last run that ended in `error`
unfoldable pub startup_interval : Settings → Dice → Bool → List Text → Option Text → ℕ → ℕ
unfolding before_paren not_empty
startup_interval s d quiet names none failures = poll_interval_seconds s d quiet failures
startup_interval s d quiet names (some error) failures = elim s.retry_delays [
  | [] ↦ poll_interval_seconds s d quiet failures
  | first ∷ more ↦
      (if not_empty error && contains (before_paren error) names
        then first
        else poll_interval_seconds s d quiet failures)
]

-- `names` is transient_error_names(), the class names of the device libraries' errors.
unfoldable pub startup_wait_seconds : Settings → Dice → Bool → List Text → List Run → ℕ → ℕ
startup_wait_seconds s d quiet names [] now = 0
startup_wait_seconds s d quiet names (last ∷ runs) now =
    if s.scrape_on_startup then 0 else elim last.finished_at [
      | none ↦ 0
      | some finished ↦
          (startup_interval s d quiet names last.error (consecutive_failures (last ∷ runs))
            - (now - finished))
    ]

-- window_starts() of shared/timestamps.py: the stamps inside the day before `now`
unfoldable pub window_starts : List (Option ℕ) → ℕ → List ℕ
window_starts [] now = []
window_starts (none ∷ stamps) now = window_starts stamps now
window_starts (some t ∷ stamps) now =
    if leb (now - day) t then t ∷ window_starts stamps now else window_starts stamps now

-- next_allowed(): a day after the `limit`-th last of the starts
unfoldable pub next_allowed : List ℕ → ℕ → Option ℕ
next_allowed starts limit = Option.map (λ t. t + day) (get_elem? starts (length starts - limit))

-- the starts of the runs, as the table has them
abbrev pub started : List Run → List (Option ℕ)
started [] = []
started (r ∷ runs) = r.started_at ∷ started runs

-- The wait under the budget, over the starts in the window, oldest first.
unfoldable pub budget_wait_from : ℕ → List ℕ → ℕ → ℕ
unfolding next_allowed
budget_wait_from limit starts now =
    if ltb (length starts) limit
    then 0
    else elim (next_allowed starts limit) [ none ↦ 0 | some t ↦ (t - now) + 1 ]

unfoldable pub budget_wait_seconds : Settings → List Run → ℕ → ℕ
budget_wait_seconds s runs now =
    if s.max_runs_per_day == 0
    then 0
    else budget_wait_from s.max_runs_per_day (window_starts (reverse (started runs)) now) now
