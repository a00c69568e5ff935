-- ===== src/Control/Tests.antt =====
-- Runs of the control files on small histories.
use instadroid.Prelude.{ℕ, ◌≡◌, true, Option, none, some, arith, codes}
use instadroid.Control.Files.{
  Files, empty, hold_reason, locked, run_now_due, since_last_run, lock_age, take_run_now,
  scrape_now,
}
use instadroid.Control.Wait.{Waited, wait}
use instadroid.Control.Laws.{scrape_now-taken}
use instadroid.Control.Waiting.{IsDone, wait-IsDone}

abbrev held_files : Files
held_files = record {
  lock = some 100;
  hold = some (codes "login screen shown\n");
  run_now = true;
  next_run = some 900;
}

abbrev requested : ℕ → Files × Option ℕ
requested slept = (record { lock = none; hold = none; run_now = true; next_run = none }, some 3600)

wait-IsDone_example :
    let seen : ℕ → Files × Option ℕ = requested in
    let min_wait : ℕ = 1800 in
    let poll : ℕ = 5 in
    let seconds : ℕ = 12 in
    (w : Waited) × (wait seen min_wait poll seconds ≡ some w)
    × IsDone seen min_wait poll seconds 0 w
wait-IsDone_example = wait-IsDone requested 1800 5 12 (ground arith)

scrape_now-taken_example :
    let f : Files = empty in
    let finished : Option ℕ = some 100 in
    let min_wait : ℕ = 1800 in
    let max_age : ℕ = 600 in
    let now : ℕ = 5000 in
    let later : ℕ = 5010 in
    (take_run_now
      (scrape_now f (since_last_run finished now) min_wait max_age now).0
      (since_last_run finished later)
      min_wait).1
    ≡ true
unfolding scrape_now locked hold_reason lock_age since_last_run run_now_due
scrape_now-taken_example =
    scrape_now-taken empty (some 100) 1800 600 5000 5010 (ground arith) (λ e. ground (arith, e))
      (λ s w e. ground (arith, e))
