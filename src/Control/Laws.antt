-- ===== src/Control/Laws.antt =====
-- What the control files promise to a person, to the feed server and to the poll loop.
use instadroid.Prelude.{
  ℕ, ◌+◌, ◌-◌, ◌≤◌, ◌<◌, ◌≡◌, ◌≢◌, refl, ap, ◌↔◌, ◌⊎◌, true, false, Option, none, some, is_some,
  List, [], ◌∷◌, arith, if◌then◌else◌, Text,
}
use instadroid.Prelude.Strip.{strip, strip-append-newline}
use instadroid.Control.Files.{
  Files, lock_age, hold_reason, locked, set_lock, set_hold, request_run_now, run_now_requested,
  clear_run_now, set_next_run, run_now_due, take_run_now, scrape_now, conflict, too_soon,
  since_last_run,
}

-- One change of the files, by either process: a lock or a release at a time, a hold, a request, its
-- removal by the poll loop, and the announcement of the next run.
pub data Change : Type 0 where
  lock unlock : ℕ → Change
  hold : Text → Change
  request clear : Change
  announce : ℕ → Change

unfoldable pub change : Files → Change → Files
change f (lock now) = set_lock f true now
change f (unlock now) = set_lock f false now
change f (hold reason) = set_hold f reason
change f request = request_run_now f
change f clear = clear_run_now f
change f (announce t) = set_next_run f t

unfoldable pub changes : Files → List Change → Files
unfolding change
changes f [] = f
changes f (c ∷ cs) = changes (change f c) cs

abbrev pub IsUnlock : Change → Type 0
IsUnlock (unlock now) = Unit
IsUnlock _ = ⊥

abbrev pub NoUnlock : List Change → Type 0
NoUnlock [] = Unit
NoUnlock (c ∷ cs) = (¬ (IsUnlock c)) × NoUnlock cs

abbrev pub IsHeld : Files → Type 0
IsHeld f = is_some f.hold ≡ true

change-IsHeld : (f : Files) (c : Change) → ¬ (IsUnlock c) → IsHeld f → IsHeld (change f c)
unfolding change set_lock set_hold request_run_now clear_run_now set_next_run
change-IsHeld f (lock now) n h = h
change-IsHeld f (unlock now) n h = absurd (n tt)
change-IsHeld f (hold reason) n h = refl
change-IsHeld f request n h = h
change-IsHeld f clear n h = h
change-IsHeld f (announce t) n h = h

pub changes-IsHeld : (f : Files) (cs : List Change) → NoUnlock cs → IsHeld f → IsHeld (changes f cs)
unfolding changes
changes-IsHeld f [] n h = h
changes-IsHeld f (c ∷ cs) (n, ns) h = changes-IsHeld (change f c) cs ns (change-IsHeld f c n h)

pub locked_of_IsHeld : (f : Files) (max_age now : ℕ) → IsHeld f → locked f max_age now ≡ true
unfolding locked hold_reason
locked_of_IsHeld f max_age now h = ground arith

-- Once a hold is set, runs stay held at every later time and under every age limit, whatever else
-- happens to the files, as long as nobody unlocks.
hold-locked :
    (f : Files) (reason : Text) (cs : List Change) (max_age now : ℕ)
    → NoUnlock cs
    → locked (changes (set_hold f reason) cs) max_age now ≡ true
unfolding set_hold
hold-locked f reason cs max_age now n =
    locked_of_IsHeld _ max_age now (changes-IsHeld (set_hold f reason) cs n refl)

-- Unlocking releases the lock and the hold at once: no later time or age limit finds runs held, no
-- reason is left, and a pending request and the announced run stay as they were.
set_lock-releases :
    (f : Files) (t max_age now : ℕ)
    → (locked (set_lock f false t) max_age now ≡ false)
      × (hold_reason (set_lock f false t) ≡ none)
      × ((set_lock f false t).run_now ≡ f.run_now)
      × ((set_lock f false t).next_run ≡ f.next_run)
unfolding locked set_lock hold_reason lock_age
set_lock-releases f t max_age now = ground arith

-- With no hold, a lock set at `t` holds runs exactly while it is younger than the age limit, and for
-- good when the limit is 0.
set_lock-expires :
    (f : Files) (t max_age now : ℕ)
    → f.hold ≡ none
    → (locked (set_lock f true t) max_age now ≡ true) ↔ ((max_age ≡ 0) ⊎ (now - t < max_age))
unfolding locked set_lock hold_reason lock_age
set_lock-expires f t max_age now h = ground arith

-- The reason that a hold shows is the error it was raised with, less the blanks around it.
pub hold_reason-set_hold :
    (f : Files) (reason : Text) → hold_reason (set_hold f reason) ≡ some (strip reason)
unfolding hold_reason set_hold
hold_reason-set_hold f reason = ap some (strip-append-newline reason)

-- A scrape-now request is accepted exactly when runs are not held and the last run is far enough
-- back or there is none. Then the files change in the request alone; otherwise not at all.
pub scrape_now-accepts :
    (f : Files) (since : Option ℕ) (min_wait max_age now : ℕ)
    → ((scrape_now f since min_wait max_age now).0 ≡ (
        if locked f max_age now
        then f
        else if run_now_due since min_wait
        then record f { run_now = true }
        else f))
      × (((scrape_now f since min_wait max_age now).1 ≡ conflict) ↔ (locked f max_age now ≡ true))
      × ((s w : ℕ)
          → (scrape_now f since min_wait max_age now).1 ≡ too_soon s w
          → (since ≡ some s) × (s < min_wait) × (s + w ≡ min_wait) × (locked f max_age now ≡ false))
unfolding scrape_now request_run_now run_now_due
scrape_now-accepts f none min_wait max_age now = (ground arith, ground arith, λ s w h. ground arith)
scrape_now-accepts f (some since) min_wait max_age now =
    (ground arith, ground arith, λ s w h. (ground arith, ground arith, ground arith, ground arith))

-- The poll loop takes a request exactly when there is one and it is due, and deletes it then: a
-- second look finds none. A request that is too early stays.
take_run_now-once :
    (f : Files) (since : Option ℕ) (min_wait : ℕ)
    → (((take_run_now f since min_wait).1 ≡ true)
        ↔ ((f.run_now ≡ true) × (run_now_due since min_wait ≡ true)))
      × ((take_run_now f since min_wait).0
          ≡ (if (take_run_now f since min_wait).1 then record f { run_now = false } else f))
      × ((later : Option ℕ)
          → (take_run_now f since min_wait).1 ≡ true
          → (take_run_now (take_run_now f since min_wait).0 later min_wait).1 ≡ false)
unfolding take_run_now run_now_requested clear_run_now
take_run_now-once f since min_wait = (ground arith, ground arith, λ later h. ground arith)

-- A request that the feed server accepted at `now` is taken by the poll loop at every later check,
-- as long as no run finishes in between.
pub scrape_now-taken :
    (f : Files) (finished : Option ℕ) (min_wait max_age now later : ℕ)
    → now ≤ later
    → (scrape_now f (since_last_run finished now) min_wait max_age now).1 ≢ conflict
    → ((s w : ℕ)
        → (scrape_now f (since_last_run finished now) min_wait max_age now).1 ≢ too_soon s w)
    → (take_run_now
        (scrape_now f (since_last_run finished now) min_wait max_age now).0
        (since_last_run finished later)
        min_wait).1
      ≡ true
unfolding scrape_now take_run_now since_last_run run_now_requested run_now_due request_run_now
scrape_now-taken f none min_wait max_age now later le nc nt = ground arith
scrape_now-taken f (some t) min_wait max_age now later le nc nt =
    ground (arith, nt (now - t) (min_wait - (now - t)))
