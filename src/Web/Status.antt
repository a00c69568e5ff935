-- ===== src/Web/Status.antt =====
-- The lines of app/feedserver/status.py that decide something, with starts_since() of
-- app/feedserver/queries.py and run_result() of app/shared/runs.py. A line is a value of a data type, its
-- wording left out; times are whole seconds.
use instadroid.Prelude.{
  ℕ, ◌-◌, ◌/◌, ◌%◌, max, Option, none, some, List, [], ◌∷◌, leb, ◌==◌, if◌then◌else◌, Text, length,
  keep,
}
use instadroid.Db.Posts.{truthy}
use instadroid.Control.Files.{ControlState}
use instadroid.Schedule.Delays.{window_starts, next_allowed}
use instadroid.Schedule.Budget.{stamps}
use instadroid.Web.Auth.{Health, healthy, overdue, failing}

pub data NextRun : Type 0 where
  held : NextRun
  unscheduled : NextRun
  starting : NextRun
  waiting : ℕ → ℕ → NextRun

-- _next_run(), with the time until then in seconds
unfoldable pub next_run_line : ControlState → Option ℕ → ℕ → NextRun
next_run_line state next now = if state.is_locked then held else elim next [
  | none ↦ unscheduled
  | some t ↦ if leb t now then starting else waiting t (t - now)
]

-- _in(): the hours and minutes of a wait
unfoldable pub wait_parts : ℕ → ℕ × ℕ
wait_parts seconds = let minutes = seconds / 60 in (minutes / 60, minutes % 60)

unfoldable pub readable : List (Option ℕ) → List ℕ
readable [] = []
readable (none ∷ cells) = readable cells
readable (some t ∷ cells) = t ∷ readable cells

insert_by_time : ℕ → List ℕ → List ℕ
insert_by_time t [] = t ∷ []
insert_by_time t (u ∷ us) = if leb t u then t ∷ u ∷ us else u ∷ insert_by_time t us

-- ORDER BY started_at
unfoldable pub by_time : List ℕ → List ℕ
unfolding insert_by_time
by_time [] = []
by_time (t ∷ ts) = insert_by_time t (by_time ts)

-- starts_since(), of the stamps that can be read: the others are left out by what reads the rows
unfoldable pub starts_since : ℕ → List (Option ℕ) → List (Option ℕ)
starts_since cutoff cells = stamps (by_time (keep (λ t. leb cutoff t) (readable cells)))

pub data Budget : Type 0 where
  no_limit : Budget
  left_of : ℕ → ℕ → Budget
  used_up : ℕ → Option ℕ → Budget

-- _budget(): where none is left, also when the next run is allowed
unfoldable pub budget_line : ℕ → List (Option ℕ) → ℕ → Budget
budget_line limit starts now =
    let started = window_starts starts now in
    let left = max (limit - length started) 0 in
    if limit == 0
    then no_limit
    else (if left == 0 then used_up limit (next_allowed started limit) else left_of left limit)

pub data Severity : Type 0 where
  err : Severity
  warn : Severity
  fine : Severity

-- run_result(): the severity and the error or warning
unfoldable pub run_result : Option Text → Option Text → Severity × Option Text
run_result error warning =
    if truthy error
    then (err, error)
    else (if truthy warning then (warn, warning) else (fine, none))

-- what the badge of _latest_html() says
pub data Verdict : Type 0 where
  errored : Verdict
  unhealthy : Health → Verdict
  warned : Verdict
  good : Verdict

unfoldable pub verdict : Option Text → Health → Option Text → Verdict
verdict error health warning = if truthy error then errored else elim health [
  | healthy ↦ if truthy warning then warned else good
  | overdue s ↦ unhealthy (overdue s)
  | failing s ↦ unhealthy (failing s)
]
