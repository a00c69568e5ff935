-- ===== src/Loop/Turn.antt =====
-- _poll_loop() and run_recorded() of app/instadroid/scrape.py. One turn of the model is one poll that
-- finds runs held, or one pass of the `while`: a wait under the budget, or a run and the sleep after it.
-- What people and the feed server do to the control files meanwhile is a list of changes, and what a run
-- comes to an outcome; the clock moves by the seconds slept and by what the run takes.
use instadroid.Prelude.{ℕ, ◌+◌, Bool, Option, none, some, List, [], ◌∷◌, ◌==◌, if◌then◌else◌, Text}
use instadroid.Db.Runs.{Run, Snapshot, Metrics, no_metrics, record_run, consecutive_failures}
use instadroid.Control.Files.{Files, locked, since_last_run, set_hold}
use instadroid.Control.Wait.{wait, announce}
use instadroid.Control.Laws.{Change, changes}
use instadroid.Schedule.Sample.{Dice}
use instadroid.Schedule.Delays.{
  Settings, Ending, success, transient, fatal, next_sleep_seconds, budget_wait_seconds,
  startup_wait_seconds,
}
use instadroid.Schedule.Backoff.{counted}
use instadroid.Alerts.Conditions.{needs_human}

pub record Loop : Type 0 where
  pub now : ℕ
  pub runs : List Run
  pub files : Files
  pub attempt : ℕ
  pub failures : ℕ

-- LOCK_MAX_HOURS, RUN_NOW_MIN_MINUTES and CONTROL_POLL_SECONDS, in seconds
pub record Pauses : Type 0 where
  pub lock_max : ℕ
  pub run_now_min : ℕ
  pub poll : ℕ

-- What a run comes to: `stats` is none where it raised before it finished, and `is_transient` says
-- whether the error is one of the device's that a retry may cure.
pub record Outcome : Type 0 where
  pub duration : ℕ
  pub error : Option Text
  pub is_transient : Bool
  pub snapshot : Option Snapshot
  pub stats : Option (ℕ × Metrics)

-- What surrounds a turn: the seconds and the changes before it, the changes by each second of its wait,
-- the random draws, and the run's outcome if there is one.
pub record Surroundings : Type 0 where
  pub paused : ℕ
  pub before : List Change
  pub during : ℕ → List Change
  pub dice : Dice
  pub quiet : Bool
  pub outcome : Outcome

new_posts : Option (ℕ × Metrics) → ℕ
new_posts none = 0
new_posts (some (n, m)) = n

metrics_of : Option (ℕ × Metrics) → Metrics
metrics_of none = no_metrics
metrics_of (some (n, m)) = m

hold_for : Option Text → Files → Files
hold_for none f = f
hold_for (some e) f = if needs_human (some e) then set_hold f e else f

-- run_recorded(): the run is in the table whatever happened
unfoldable pub run_recorded : Outcome → Loop → Loop
unfolding new_posts metrics_of hold_for
run_recorded o l = record l {
  now = l.now + o.duration;
  runs =
      record_run l.runs l.now (l.now + o.duration) (new_posts o.stats) o.error o.snapshot
        (metrics_of o.stats);
  files = hold_for o.error l.files;
}

unfoldable pub ending : Outcome → Ending
ending o = elim o.error [ none ↦ success | some e ↦ if o.is_transient then transient else fatal ]

-- when the latest run finished
latest_finished : List Run → Option ℕ
latest_finished [] = none
latest_finished (r ∷ runs) = r.finished_at

-- the files that a wait's polls see
unfoldable pub seen_by : Loop → (ℕ → List Change) → ℕ → ℕ → Files × Option ℕ
unfolding latest_finished
seen_by l during seconds slept = (
  changes (announce l.files l.now seconds) (during slept),
  since_last_run (latest_finished l.runs) (l.now + slept),
)

module _ (s : Settings) (p : Pauses) where
  -- control.wait(con, seconds); none if the model's fuel ran out
  unfoldable pub wait_for : (ℕ → List Change) → ℕ → Loop → Option Loop
  wait_for during seconds l = elim (wait (seen_by l during seconds) p.run_now_min p.poll seconds) [
    | none ↦ none
    | some w ↦ some (record l { now = l.now + w.slept; files = w.files })
  ]

  -- the run that a pass of the loop makes, and the loop's counters after it
  unfoldable pub run_once : Surroundings → Loop → Loop
  run_once i l =
      let ran = run_recorded i.outcome (record l { files = announce l.files l.now 0 }) in
      let failures = counted l.failures i.outcome.error in
      record ran {
        failures = failures;
        attempt = (next_sleep_seconds s i.dice i.quiet (ending i.outcome) l.attempt failures).1;
      }

  unfoldable pub sleep_after : Surroundings → Loop → ℕ
  sleep_after i l =
      (next_sleep_seconds s i.dice i.quiet (ending i.outcome) l.attempt
        (counted l.failures i.outcome.error)).0

  -- the budget's wait, or a run and its sleep
  unfoldable pub pass : Surroundings → Loop → Option Loop
  pass i l =
      let b = budget_wait_seconds s l.runs l.now in
      if b == 0 then wait_for i.during (sleep_after i l) (run_once i l) else wait_for i.during b l

  -- the time and the changes before a turn
  unfoldable pub resumed : Surroundings → Loop → Loop
  resumed i l = record l { now = l.now + i.paused; files = changes l.files i.before }

  unfoldable pub turn : Surroundings → Loop → Option Loop
  turn i l =
      let l' = resumed i l in
      if locked l'.files p.lock_max l'.now
      then some (record l' { now = l'.now + p.poll })
      else pass i l'

  -- _poll_loop(), from the first turn on
  unfoldable pub loop : List Surroundings → Loop → Option Loop
  loop [] l = some l
  loop (i ∷ rest) l = elim (turn i l) [ none ↦ none | some l' ↦ loop rest l' ]

  -- what _poll_loop() does before its first turn
  unfoldable pub start_loop :
      (ℕ → List Change) → Dice → Bool → List Text → List Run → Files → ℕ → Option Loop
  start_loop during d quiet names runs files now =
      let fresh : Loop = record {
        now = now;
        runs = runs;
        files = files;
        attempt = 0;
        failures = consecutive_failures runs;
      } in
      let seconds = startup_wait_seconds s d quiet names runs now in
      if seconds == 0 then some fresh else wait_for during seconds fresh
