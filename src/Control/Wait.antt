-- ===== src/Control/Wait.antt =====
-- app/instadroid/control.py: the loops that sleep between runs and while the lock is in place.
-- What the files hold at a poll, which people and the feed server write meanwhile, is a function of
-- the seconds slept so far, `seen`; a poll also reads how long ago the last run finished.
use instadroid.Prelude.{
  ℕ, zero, suc, ◌+◌, ◌-◌, Bool, true, false, List, [], ◌∷◌, Option, none, some, min, ◌==◌,
  if◌then◌else◌,
}
use mathlib.Core.Option
use instadroid.Control.Files.{Files, take_run_now, locked, set_next_run, lock_age}

-- How a wait ended: the seconds slept, the files as it left them, and whether a request cut it short.
pub record Waited : Type 0 where
  pub slept : ℕ
  pub files : Files
  pub early : Bool

module _ (seen : ℕ → Files × Option ℕ) (min_wait poll : ℕ) where
  -- the `while remaining > 0` loop; `none` if the fuel runs out
  unfoldable pub wait_from : ℕ → ℕ → ℕ → Option Waited
  wait_from zero remaining slept = none
  wait_from (suc fuel) remaining slept =
      let f = (seen slept).0 in
      let (f', due) = take_run_now f (seen slept).1 min_wait in
      let step = min remaining poll in
      let rest = wait_from fuel (remaining - step) (slept + step) in
      if remaining == 0
      then some (record { slept = slept; files = f; early = false })
      else if due
      then some (record { slept = slept; files = f'; early = true })
      else rest

  -- wait(con, seconds), after it has told /status when the next run starts
  unfoldable pub wait : ℕ → Option Waited
  unfolding wait_from
  wait seconds = wait_from (suc seconds) seconds 0

-- set_next_run(seconds) of instadroid/control.py
unfoldable pub announce : Files → ℕ → ℕ → Files
announce f now seconds = set_next_run f (now + seconds)

-- The `while locked()` loop over what its polls find, the files and the time of each: the polls it
-- slept through, or none while every one of them found runs held.
unfoldable pub wait_unlocked : ℕ → List (Files × ℕ) → Option ℕ
wait_unlocked max_age [] = none
wait_unlocked max_age ((f, now) ∷ polls) =
    let later = wait_unlocked max_age polls in
    if locked f max_age now then Option.map suc later else some 0

-- wait_while_locked(): what it logs
pub data Held : Type 0 where
  on_hold : Held
  on_lock : Held
  stale_lock : ℕ → Held
  free : Held

unfoldable pub held_log : Files → ℕ → ℕ → Held
held_log f max_age now =
    if locked f max_age now
    then elim f.hold [ none ↦ on_lock | some reason ↦ on_hold ]
    else elim (lock_age f now) [ none ↦ free | some age ↦ stale_lock age ]
