-- ===== src/Loop/Tests.antt =====
-- The poll loop over a quiet hour, and over a run that needs a person.
use instadroid.Prelude.{
  ℕ, ◌≤◌, ◌≡◌, refl, false, none, some, List, [], ◌∷◌, arith, codes, any, starts_with,
}
use instadroid.Db.Runs.{no_metrics}
use instadroid.Control.Files.{empty, locked, hold_reason, lock_age}
use instadroid.Control.Laws.{lock, request, changes}
use instadroid.Schedule.Sample.{uniform, Dice}
use instadroid.Schedule.Delays.{
  Settings, started, budget_wait_seconds, budget_wait_from, window_starts,
}
use instadroid.Alerts.Conditions.{needs_human, is_in}
use instadroid.Loop.Turn.{Loop, Pauses, Surroundings, loop, resumed, run_once}
use instadroid.Loop.Pace.{Ensures, runs_in_day, loop-runs_in_day}
use instadroid.Loop.Holding.{loop-last_run}

abbrev low_dice : Dice
low_dice = record { uniform_draw = λ lo hi. lo; lognormal_draw = λ i. 100 }

abbrev hourly : Settings
hourly = record {
  distribution = uniform;
  scrape_on_startup = false;
  poll_min = 3600;
  poll_max = 7200;
  retry_delays = 60 ∷ 300 ∷ [];
  backoff_max = 86400;
  max_runs_per_day = 2;
}

abbrev pauses : Pauses
pauses = record { lock_max = 3600; run_now_min = 1800; poll = 5 }

abbrev in_peace : Surroundings
in_peace = record {
  paused = 0;
  before = [];
  during = λ slept. [];
  dice = low_dice;
  quiet = false;
  outcome = record {
    duration = 60;
    error = none;
    is_transient = false;
    snapshot = none;
    stats = some (3, no_metrics);
  };
}

abbrev blocked : Surroundings
blocked = record in_peace {
  outcome = record {
    duration = 60;
    error = some (codes "Instagram wants a human: 'Confirm' screen");
    is_transient = false;
    snapshot = none;
    stats = none;
  };
}

abbrev at_start : Loop
at_start = record { now = 100000; runs = []; files = empty; attempt = 0; failures = 0 }

loop-runs_in_day_example :
    let s : Settings = hourly in
    let p : Pauses = pauses in
    let is : List Surroundings = in_peace ∷ blocked ∷ in_peace ∷ [] in
    let l : Loop = at_start in
    let now : ℕ = 150000 in
    Ensures (λ l'. runs_in_day now (started l'.runs) ≤ s.max_runs_per_day) (loop s p is l)
loop-runs_in_day_example =
    loop-runs_in_day hourly pauses (in_peace ∷ blocked ∷ in_peace ∷ []) at_start 150000
      (ground arith) (ground arith) refl refl

loop-last_run_example :
    Ensures
      (λ l'.
        l'.runs ≡ (run_once hourly pauses blocked (resumed hourly pauses blocked at_start)).runs)
      (loop hourly pauses
        (blocked ∷ record in_peace { before = request ∷ lock 100100 ∷ [] } ∷ [])
        at_start)
unfolding locked hold_reason lock_age resumed changes budget_wait_seconds budget_wait_from
    window_starts needs_human is_in any starts_with
loop-last_run_example =
    loop-last_run hourly pauses blocked
      (record in_peace { before = request ∷ lock 100100 ∷ [] } ∷ []) at_start
      (codes "Instagram wants a human: 'Confirm' screen") (ground arith) refl refl refl refl
      (λ k. tt) (((λ x. x), ((λ x. x), tt)), tt)
