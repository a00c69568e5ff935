-- ===== src/Loop/Pace.antt =====
-- The poll loop keeps the pace that MAX_RUNS_PER_DAY sets (app/instadroid/scrape.py): it refines the
-- limiter `Started` of Schedule/Budget.
use mathlib.Core.List.{reverse, reverse-append}
use instadroid.Prelude.{
  ℕ, ◌+◌, ◌-◌, ◌≤◌, ◌<◌, ◌≡◌, ◌≢◌, refl, sym, ap, ◌∙◌, min, ◌&&◌, Option, none, some, List, [], ◌∷◌,
  ◌++◌, arith, ◌==◌, if◌then◌else◌, Bool-cases, inl, inr, All, All-mono, leb,
}
use instadroid.Db.Runs.{Run, leading_errors, record_run, consecutive_failures}
use instadroid.Control.Waiting.{wait-IsDone}
use instadroid.Control.Files.{locked}
use instadroid.Control.Laws.{Change}
use instadroid.Schedule.Delays.{Settings, started, budget_wait_seconds}
use instadroid.Schedule.Budget.{
  stamps, budget_wait, Started, start, nothing, count_window, Started-count_window,
}
use instadroid.Schedule.Backoff.{consecutive_failures-record_run}
use instadroid.Loop.Turn.{
  Loop, Pauses, Surroundings, run_recorded, seen_by, wait_for, run_once, sleep_after, pass, resumed,
  turn, loop,
}

stamps-append : (xs ys : List ℕ) → stamps (xs ++ ys) ≡ stamps xs ++ stamps ys
stamps-append [] ys = refl
stamps-append (x ∷ xs) ys = ap (λ t. some x ∷ t) (stamps-append xs ys)

stamps-reverse : (xs : List ℕ) → stamps (reverse xs) ≡ reverse (stamps xs)
stamps-reverse [] = refl
stamps-reverse (x ∷ xs) = simp (
  reverse-append (x ∷ []) xs,
  reverse-append (some x ∷ []) (stamps xs),
  stamps-append (reverse xs) (x ∷ []),
  stamps-reverse xs,
)

-- the code's wait is the limiter's
budget_wait_seconds-eq :
    (s : Settings) (runs : List Run) (ts : List ℕ) (now : ℕ)
    → s.max_runs_per_day ≢ 0
    → started runs ≡ stamps ts
    → budget_wait_seconds s runs now ≡ budget_wait s.max_runs_per_day (reverse ts) now
unfolding budget_wait_seconds budget_wait
budget_wait_seconds-eq s runs ts now n e = elim (Bool-cases (s.max_runs_per_day == 0)) [
  | inl off ↦ absurd (n (ground (arith, off)))
  | inr on ↦ rw (on, e, stamps-reverse ts) refl
]

-- What the loop maintains: the runs in the table started as the limiter allows, none of them later than
-- now, and its count of failures is the table's.
pub record IsPaced (limit : ℕ) (l : Loop) : Type 0 where
  pub starts : List ℕ
  pub recorded : started l.runs ≡ stamps starts
  pub paced : Started limit starts
  pub past : All (λ t. t ≤ l.now) starts
  pub counts : consecutive_failures l.runs ≡ min 64 l.failures

abbrev pub Ensures : (Loop → Type 0) → Option Loop → Type 0
Ensures P none = ⊥
Ensures P (some l) = P l

pub Ensures-bind :
    (P Q : Loop → Type 0) (f : Loop → Option Loop) (o : Option Loop)
    → Ensures P o
    → ((l : Loop) → P l → Ensures Q (f l))
    → Ensures Q (elim o [ none ↦ none | some l ↦ f l ])
Ensures-bind P Q f none h k = h
Ensures-bind P Q f (some l) h k = k l h

pub Ensures-of : (P : Loop → Type 0) (o : Option Loop) (l : Loop) → o ≡ some l → P l → Ensures P o
Ensures-of P o l e h = rw e h

module _ (s : Settings) (p : Pauses) (ticks : 0 < p.poll) (limited : s.max_runs_per_day ≢ 0) where
  later-IsPaced :
      (l l' : Loop)
      → l'.runs ≡ l.runs
      → l'.failures ≡ l.failures
      → l.now ≤ l'.now
      → IsPaced s.max_runs_per_day l
      → IsPaced s.max_runs_per_day l'
  later-IsPaced l l' e f le h = record {
    starts = h.starts;
    recorded = rw e h.recorded;
    paced = h.paced;
    past = All-mono h.starts (λ t u. omega arith) h.past;
    counts = rw (e, f) h.counts;
  }

  wait_for-IsPaced :
      (during : ℕ → List Change) (seconds : ℕ) (l : Loop)
      → IsPaced s.max_runs_per_day l
      → Ensures (IsPaced s.max_runs_per_day) (wait_for s p during seconds l)
  unfolding wait_for
  wait_for-IsPaced during seconds l h =
      let (w, e, d) = wait-IsDone (seen_by l during seconds) p.run_now_min p.poll seconds ticks in
      let l' : Loop = record l { now = l.now + w.slept; files = w.files } in
      Ensures-of (IsPaced s.max_runs_per_day) (wait_for s p during seconds l) l' (ground (arith, e))
        (later-IsPaced l l' refl refl (omega arith) h)

  run_once-IsPaced :
      (i : Surroundings) (l : Loop)
      → budget_wait_seconds s l.runs l.now ≡ 0
      → IsPaced s.max_runs_per_day l
      → IsPaced s.max_runs_per_day (run_once s p i l)
  unfolding run_once run_recorded record_run
  run_once-IsPaced i l allowed h = record {
    starts = l.now ∷ h.starts;
    recorded = ap (λ t. some l.now ∷ t) h.recorded;
    paced =
        start l.now h.paced h.past
          (sym (budget_wait_seconds-eq s l.runs h.starts l.now limited h.recorded) ∙ allowed);
    past = (omega arith, All-mono h.starts (λ t u. omega arith) h.past);
    counts =
        consecutive_failures-record_run l.runs l.failures l.now (l.now + i.outcome.duration) _
          i.outcome.error i.outcome.snapshot _ h.counts;
  }

  pass-IsPaced :
      (i : Surroundings) (l : Loop)
      → IsPaced s.max_runs_per_day l
      → Ensures (IsPaced s.max_runs_per_day) (pass s p i l)
  unfolding pass
  pass-IsPaced i l h = elim (Bool-cases (budget_wait_seconds s l.runs l.now == 0)) [
    | inl allowed ↦ rw allowed (
        wait_for-IsPaced i.during (sleep_after s p i l) _
          (run_once-IsPaced i l (ground (arith, allowed)) h))
    | inr early ↦ rw early (wait_for-IsPaced i.during _ l h)
  ]

  turn-IsPaced :
      (i : Surroundings) (l : Loop)
      → IsPaced s.max_runs_per_day l
      → Ensures (IsPaced s.max_runs_per_day) (turn s p i l)
  unfolding turn resumed
  turn-IsPaced i l h =
      let l' = resumed s p i l in
      let h' = later-IsPaced l l' refl refl (omega arith) h in
      elim (Bool-cases (locked l'.files p.lock_max l'.now)) [
        | inl held ↦
            rw held
              (later-IsPaced l' (record l' { now = l'.now + p.poll }) refl refl (omega arith) h')
        | inr no_lock ↦ rw no_lock (pass-IsPaced i l' h')
      ]

  -- From a state that is paced, with a limit set, the loop never gets stuck, whatever happens around it, and
  -- stays paced.
  loop-IsPaced :
      (is : List Surroundings) (l : Loop)
      → IsPaced s.max_runs_per_day l
      → Ensures (IsPaced s.max_runs_per_day) (loop s p is l)
  unfolding loop
  loop-IsPaced [] l h = h
  loop-IsPaced (i ∷ is) l h =
      Ensures-bind (IsPaced s.max_runs_per_day) (IsPaced s.max_runs_per_day) (loop s p is)
        (turn s p i l) (turn-IsPaced i l h) (loop-IsPaced is)

-- the runs of the table that started in the day up to `now`
abbrev pub runs_in_day : ℕ → List (Option ℕ) → ℕ
runs_in_day now [] = 0
runs_in_day now (none ∷ ts) = runs_in_day now ts
runs_in_day now (some t ∷ ts) =
    (if leb t now && leb (now - 86400) t then 1 else 0) + runs_in_day now ts

runs_in_day-stamps : (now : ℕ) (ts : List ℕ) → runs_in_day now (stamps ts) ≡ count_window now ts
unfolding count_window
runs_in_day-stamps now [] = refl
runs_in_day-stamps now (t ∷ ts) = ground (arith, runs_in_day-stamps now ts)

-- A loop that starts on an empty table never has more runs in any day than MAX_RUNS_PER_DAY allows.
pub loop-runs_in_day :
    (s : Settings) (p : Pauses) (is : List Surroundings) (l : Loop) (now : ℕ)
    → 0 < p.poll
    → s.max_runs_per_day ≢ 0
    → l.runs ≡ []
    → l.failures ≡ 0
    → Ensures (λ l'. runs_in_day now (started l'.runs) ≤ s.max_runs_per_day) (loop s p is l)
unfolding consecutive_failures leading_errors
loop-runs_in_day s p is l now ticks limited fresh clean = within (loop s p is l) (
    loop-IsPaced s p ticks limited is l (record {
      starts = [];
      recorded = rw fresh refl;
      paced = nothing;
      past = tt;
      counts = rw (fresh, clean) refl;
    }))
  where
    within :
        (o : Option Loop)
        → Ensures (IsPaced s.max_runs_per_day) o
        → Ensures (λ l'. runs_in_day now (started l'.runs) ≤ s.max_runs_per_day) o
    within none h = h
    within (some l') h =
        rw (h.recorded, runs_in_day-stamps now h.starts)
          (Started-count_window now (ground arith) h.paced)
