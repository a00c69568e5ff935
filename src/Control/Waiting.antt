-- ===== src/Control/Waiting.antt =====
-- The waiting loops of app/instadroid/control.py end, and when.
use instadroid.Prelude.{
  ℕ, zero, suc, ◌+◌, ◌-◌, ◌≤◌, ◌<◌, ◌≡◌, ◌≢◌, refl, true, false, Option, none, some, arith, List,
  [], ◌∷◌, All, take, get_elem?, Bool-cases, inl, inr, min, ◌==◌,
}
use mathlib.Core.Option
use instadroid.Control.Files.{Files, take_run_now, locked}
use instadroid.Control.Wait.{Waited, wait_from, wait, wait_unlocked}

module _ (seen : ℕ → Files × Option ℕ) (min_wait poll : ℕ) where
  -- A wait that began with `remaining` seconds left after `slept` is well ended: within its time, at
  -- a poll that took a request, or else after all of it.
  pub record IsDone (remaining slept : ℕ) (w : Waited) : Type 0 where
    pub after : slept ≤ w.slept
    pub within : w.slept ≤ slept + remaining
    pub whole : w.early ≡ false → w.slept ≡ slept + remaining
    pub taken :
        w.early ≡ true
        → ((take_run_now (seen w.slept).0 (seen w.slept).1 min_wait).1 ≡ true)
          × (w.files ≡ (take_run_now (seen w.slept).0 (seen w.slept).1 min_wait).0)
          × (w.slept < slept + remaining)

  IsDone-now :
      (remaining slept : ℕ) (f : Files)
      → remaining ≡ 0
      → IsDone remaining slept (record { slept = slept; files = f; early = false })
  IsDone-now remaining slept f e = record {
    after = omega arith;
    within = omega arith;
    whole = λ _. omega arith;
    taken = λ h. cc;
  }

  IsDone-taken :
      (remaining slept : ℕ)
      → remaining ≢ 0
      → (take_run_now (seen slept).0 (seen slept).1 min_wait).1 ≡ true
      → IsDone remaining slept (record {
        slept = slept;
        files = (take_run_now (seen slept).0 (seen slept).1 min_wait).0;
        early = true;
      })
  IsDone-taken remaining slept n due = record {
    after = omega arith;
    within = omega arith;
    whole = λ h. cc;
    taken = λ _. (due, refl, omega arith);
  }

  IsDone-later :
      (remaining slept step : ℕ) (w : Waited)
      → step ≤ remaining
      → IsDone (remaining - step) (slept + step) w
      → IsDone remaining slept w
  IsDone-later remaining slept step w le d = record {
    after = omega (arith, d.after);
    within = omega (arith, d.within);
    whole = λ h. omega (arith, d.whole h);
    taken = λ h. ((d.taken h).0, (d.taken h).1, omega (arith, (d.taken h).2));
  }

  pub wait_from-IsDone :
      (fuel remaining slept : ℕ)
      → 0 < poll
      → remaining < fuel
      → (w : Waited) × (wait_from seen min_wait poll fuel remaining slept ≡ some w)
        × IsDone remaining slept w
  unfolding wait_from
  wait_from-IsDone zero remaining slept p h = elim h [ ]
  wait_from-IsDone (suc fuel) remaining slept p h = elim (Bool-cases (remaining == 0)) [
    | inl done ↦ (_, rw done, IsDone-now remaining slept (seen slept).0 (ground arith))
    | inr more ↦ elim (Bool-cases (take_run_now (seen slept).0 (seen slept).1 min_wait).1) [
      | inl due ↦ (_, rw (more, due), IsDone-taken remaining slept (ground arith) due)
      | inr early ↦
          let (w, e, d) =
            wait_from-IsDone fuel (remaining - min remaining poll) (slept + min remaining poll) p
              (ground arith) in
          (
            w,
            rw (more, early) e,
            IsDone-later remaining slept (min remaining poll) w (omega arith) d,
          )
    ]
  ]

-- A wait always ends. It sleeps at most the time asked for, and less only if a scrape-now request was
-- due at that moment, which it has then deleted.
pub wait-IsDone :
    (seen : ℕ → Files × Option ℕ) (min_wait poll seconds : ℕ)
    → 0 < poll
    → (w : Waited) × (wait seen min_wait poll seconds ≡ some w)
      × IsDone seen min_wait poll seconds 0 w
unfolding wait
wait-IsDone seen min_wait poll seconds p =
    wait_from-IsDone seen min_wait poll (suc seconds) seconds 0 p (omega arith)

abbrev pub IsFree : ℕ → Files × ℕ → Type 0
IsFree max_age (f, now) = locked f max_age now ≡ false

abbrev pub IsLocked : ℕ → Files × ℕ → Type 0
IsLocked max_age (f, now) = locked f max_age now ≡ true

-- How a wait for the lock over these polls ends: `none` while all find runs held, and after `k` polls
-- that did when the next one does not.
abbrev pub EndsAt : ℕ → List (Files × ℕ) → Option ℕ → Type 0
EndsAt max_age polls none = All (IsLocked max_age) polls
EndsAt max_age polls (some k) =
    All (IsLocked max_age) (take k polls)
    × ((p : Files × ℕ) × (get_elem? polls k ≡ some p) × IsFree max_age p)

EndsAt-later :
    (max_age : ℕ) (p : Files × ℕ) (polls : List (Files × ℕ)) (o : Option ℕ)
    → IsLocked max_age p
    → EndsAt max_age polls o
    → EndsAt max_age (p ∷ polls) (Option.map suc o)
EndsAt-later max_age p polls none h e = (h, e)
EndsAt-later max_age p polls (some k) h (held, free) = ((h, held), free)

-- Runs go on at the first poll that finds them free, and no earlier: every poll slept through found
-- runs held, and a wait that never ended found them held each time.
wait_unlocked-EndsAt :
    (max_age : ℕ) (polls : List (Files × ℕ)) → EndsAt max_age polls (wait_unlocked max_age polls)
unfolding wait_unlocked
wait_unlocked-EndsAt max_age [] = tt
wait_unlocked-EndsAt max_age ((f, now) ∷ polls) = elim (Bool-cases (locked f max_age now)) [
  | inl held ↦
      rw held (EndsAt-later max_age (f, now) polls _ held (wait_unlocked-EndsAt max_age polls))
  | inr free ↦ rw free (tt, ((f, now), refl, free))
]
