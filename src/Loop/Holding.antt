-- ===== src/Loop/Holding.antt =====
-- A hold stops the poll loop of app/instadroid/scrape.py until a person releases it.
use mathlib.Core.Path.{subst}
use instadroid.Prelude.{
  ℕ, zero, suc, ◌+◌, ◌-◌, ◌<◌, ◌≡◌, refl, sym, ◌∙◌, min, true, false, Option, some, List, [], ◌∷◌,
  arith, Text, All,
}
use instadroid.Control.Files.{Files, locked, set_hold, set_next_run, take_run_now, clear_run_now}
use instadroid.Control.Wait.{Waited, wait_from, wait, announce}
use instadroid.Control.Waiting.{wait-IsDone}
use instadroid.Db.Runs.{Run}
use instadroid.Control.Laws.{Change, changes, NoUnlock, IsHeld, changes-IsHeld, locked_of_IsHeld}
use instadroid.Schedule.Delays.{Settings, budget_wait_seconds}
use instadroid.Alerts.Conditions.{needs_human}
use instadroid.Loop.Turn.{
  Loop, Pauses, Surroundings, run_recorded, seen_by, wait_for, run_once, sleep_after, pass, resumed,
  turn, loop,
}
use instadroid.Loop.Pace.{Ensures, Ensures-bind, Ensures-of}

take_run_now-IsHeld :
    (f : Files) (since : Option ℕ) (min_wait : ℕ)
    → IsHeld f
    → IsHeld (take_run_now f since min_wait).0
unfolding take_run_now clear_run_now
take_run_now-IsHeld f since min_wait h = ground arith

wait_from-IsHeld :
    (seen : ℕ → Files × Option ℕ) (min_wait poll fuel remaining slept : ℕ)
    → ((k : ℕ) → IsHeld (seen k).0)
    → (w : Waited) → wait_from seen min_wait poll fuel remaining slept ≡ some w
    → IsHeld w.files
unfolding wait_from
wait_from-IsHeld seen min_wait poll zero remaining slept h w e = cc
wait_from-IsHeld seen min_wait poll (suc fuel) remaining slept h w e = ground (
  arith,
  h slept,
  take_run_now-IsHeld (seen slept).0 (seen slept).1 min_wait (h slept),
  wait_from-IsHeld seen min_wait poll fuel (remaining - min remaining poll)
      (slept + min remaining poll) h w,
)

module _ (s : Settings) (p : Pauses) where
  -- A turn that finds a hold makes no run, and the hold stays unless someone unlocks.
  turn-IsHeld :
      (i : Surroundings) (l : Loop)
      → IsHeld l.files
      → NoUnlock i.before
      → Ensures (λ l'. (l'.runs ≡ l.runs) × IsHeld l'.files) (turn s p i l)
  unfolding turn resumed
  turn-IsHeld i l h n =
      let h' = changes-IsHeld l.files i.before n h in
      rw (locked_of_IsHeld (changes l.files i.before) p.lock_max (l.now + i.paused) h') (refl, h')

  loop-held :
      (runs : List Run) (is : List Surroundings) (l : Loop)
      → (l.runs ≡ runs) × IsHeld l.files
      → All (λ i. NoUnlock i.before) is
      → Ensures (λ l'. l'.runs ≡ runs) (loop s p is l)
  unfolding loop
  loop-held runs [] l (e, h) n = e
  loop-held runs (i ∷ is) l (e, h) (n, ns) =
      Ensures-bind (λ l'. (l'.runs ≡ l.runs) × IsHeld l'.files) (λ l'. l'.runs ≡ runs) (loop s p is)
        (turn s p i l) (turn-IsHeld i l h n) (λ l' k. loop-held runs is l' (k.0 ∙ e, k.1) ns)

  -- the files after a run that ended in such an error
  run_once-IsHeld :
      (i : Surroundings) (l : Loop) (e : Text)
      → i.outcome.error ≡ some e
      → needs_human (some e) ≡ true
      → IsHeld (run_once s p i l).files
  unfolding run_once run_recorded set_hold
  run_once-IsHeld i l e h n = ground (arith, h, n)

  -- a sleep makes no run and keeps a hold
  wait_for-IsHeld :
      (during : ℕ → List Change) (seconds : ℕ) (l : Loop)
      → 0 < p.poll
      → IsHeld l.files
      → ((k : ℕ) → NoUnlock (during k))
      → Ensures (λ l'. (l'.runs ≡ l.runs) × IsHeld l'.files) (wait_for s p during seconds l)
  unfolding wait_for seen_by wait announce set_next_run
  wait_for-IsHeld during seconds l ticks h n =
      let (w, e, d) = wait-IsDone (seen_by l during seconds) p.run_now_min p.poll seconds ticks in
      let l' : Loop = record l { now = l.now + w.slept; files = w.files } in
      let held : IsHeld w.files =
        wait_from-IsHeld (seen_by l during seconds) p.run_now_min p.poll (suc seconds) seconds 0
          (λ k. changes-IsHeld (announce l.files l.now seconds) (during k) (n k) h) w e in
      Ensures-of (λ l'. (l'.runs ≡ l.runs) × IsHeld l'.files) (wait_for s p during seconds l) l'
        (ground (arith, e)) (refl, held)

  -- a turn that is neither held nor out of budget makes a run
  turn-runs :
      (i : Surroundings) (l : Loop)
      → locked (resumed s p i l).files p.lock_max (resumed s p i l).now ≡ false
      → budget_wait_seconds s l.runs (resumed s p i l).now ≡ 0
      → turn s p i l
        ≡ wait_for s p i.during
            (sleep_after s p i (resumed s p i l))
            (run_once s p i (resumed s p i l))
  unfolding turn pass resumed
  turn-runs i l unlocked allowed = rw (unlocked, allowed) refl

  -- A run that ends in an error only a person can clear is the last one: whatever comes after it, the
  -- table keeps the runs that it had then, as long as nobody unlocks.
  pub loop-last_run :
      (i : Surroundings) (is : List Surroundings) (l : Loop) (e : Text)
      → 0 < p.poll
      → locked (resumed s p i l).files p.lock_max (resumed s p i l).now ≡ false
      → budget_wait_seconds s l.runs (resumed s p i l).now ≡ 0
      → i.outcome.error ≡ some e
      → needs_human (some e) ≡ true
      → ((k : ℕ) → NoUnlock (i.during k))
      → All (λ j. NoUnlock j.before) is
      → Ensures (λ l'. l'.runs ≡ (run_once s p i (resumed s p i l)).runs) (loop s p (i ∷ is) l)
  unfolding loop
  loop-last_run i is l e ticks unlocked allowed failed human n ns =
      let ran = run_once s p i (resumed s p i l) in
      Ensures-bind (λ l'. (l'.runs ≡ ran.runs) × IsHeld l'.files) (λ l'. l'.runs ≡ ran.runs)
        (loop s p is) (turn s p i l)
        (subst (Ensures (λ l'. (l'.runs ≡ ran.runs) × IsHeld l'.files))
          (sym (turn-runs i l unlocked allowed))
          (wait_for-IsHeld i.during (sleep_after s p i (resumed s p i l)) ran ticks
            (run_once-IsHeld i (resumed s p i l) e failed human) n))
        (λ l' k. loop-held ran.runs is l' k ns)
