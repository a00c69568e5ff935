-- ===== src/Control/Files.antt =====
-- app/shared/control.py: the control files, and app/feedserver/control.py: the /control routes.
use instadroid.Prelude.{
  ℕ, ◌-◌, Bool, true, false, ◌||◌, Option, none, some, is_some, ltb, leb, ◌==◌, if◌then◌else◌, Text,
  codes, ◌++◌,
}
use mathlib.Core.Option
use instadroid.Prelude.Strip.{strip}

-- `lock` is the mtime of manual.lock, `hold` the text of needs-human.hold, `next_run` the time in
-- next-run; `none` where there is no such file.
pub record Files : Type 0 where
  pub lock : Option ℕ
  pub hold : Option Text
  pub run_now : Bool
  pub next_run : Option ℕ

abbrev pub empty : Files
empty = record { lock = none; hold = none; run_now = false; next_run = none }

-- How long the lock has been in place.
unfoldable pub lock_age : Files → ℕ → Option ℕ
lock_age f now = Option.map (λ mtime. now - mtime) f.lock

unfoldable pub hold_reason : Files → Option Text
hold_reason f = Option.map strip f.hold

-- True while a hold is in place, or a lock younger than `max_age` (any age, for 0) is.
unfoldable pub locked : Files → ℕ → ℕ → Bool
locked f max_age now =
    if is_some (hold_reason f)
    then true
    else elim (lock_age f now) [ none ↦ false | some age ↦ max_age == 0 || ltb age max_age ]

-- Writing the lock file sets its mtime; releasing it clears a hold too.
unfoldable pub set_lock : Files → Bool → ℕ → Files
set_lock f true now = record f { lock = some now }
set_lock f false now = record f { lock = none; hold = none }

unfoldable pub set_hold : Files → Text → Files
set_hold f reason = record f { hold = some (reason ++ codes "\n") }

unfoldable pub request_run_now : Files → Files
request_run_now f = record f { run_now = true }

unfoldable pub run_now_requested : Files → Bool
run_now_requested f = f.run_now

unfoldable pub clear_run_now : Files → Files
clear_run_now f = record f { run_now = false }

unfoldable pub set_next_run : Files → ℕ → Files
set_next_run f at_time = record f { next_run = some at_time }

-- Seconds since the latest run finished: none before any has, or where its time cannot be read.
unfoldable pub since_last_run : Option ℕ → ℕ → Option ℕ
since_last_run finished now = Option.map (λ t. now - t) finished

unfoldable pub run_now_due : Option ℕ → ℕ → Bool
run_now_due none min_wait = true
run_now_due (some since) min_wait = leb min_wait since

-- take_run_now() of instadroid/control.py: the new files, and whether a run may start.
unfoldable pub take_run_now : Files → Option ℕ → ℕ → Files × Bool
take_run_now f since min_wait =
    if run_now_requested f
    then (if run_now_due since min_wait then (clear_run_now f, true) else (f, false))
    else (f, false)

pub record ControlState : Type 0 where
  pub is_locked : Bool
  pub scrape_now : Bool
  pub hold : Option Text

unfoldable pub current_state : Files → ℕ → ℕ → ControlState
current_state f max_age now = record {
  is_locked = locked f max_age now;
  scrape_now = run_now_requested f;
  hold = hold_reason f;
}

-- What a route answers: the new state, or an HTTP error.
pub data Reply : Type 0 where
  accepted : ControlState → Reply
  conflict : Reply
  too_soon : ℕ → ℕ → Reply

-- POST and DELETE /control/lock
unfoldable pub lock_route : Files → Bool → ℕ → ℕ → Files × ControlState
lock_route f on max_age now = let f' = set_lock f on now in (f', current_state f' max_age now)

-- POST /control/scrape-now
unfoldable pub scrape_now : Files → Option ℕ → ℕ → ℕ → ℕ → Files × Reply
unfolding current_state
scrape_now f since min_wait max_age now =
    if (current_state f max_age now).is_locked then (f, conflict) else elim since [
      | none ↦ (let f' = request_run_now f in (f', accepted (current_state f' max_age now)))
      | some s ↦
          (if run_now_due (some s) min_wait
            then (let f' = request_run_now f in (f', accepted (current_state f' max_age now)))
            else (f, too_soon s (min_wait - s)))
    ]
