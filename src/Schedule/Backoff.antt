-- ===== src/Schedule/Backoff.antt =====
-- The backoff of the poll interval, the retries, and the failure count that survives a restart.
use native.Mathlib.Nat.{one-le-pow, pow-le-pow_right}
use instadroid.Prelude.{
  ℕ, zero, suc, ◌+◌, ◌-◌, ◌*◌, ◌/◌, ◌^◌, ◌≤◌, ◌≡◌, refl, min, max, Bool, Option, none, some, List,
  [], ◌∷◌, take, arith, length, get_elem?, Text,
}
use instadroid.Schedule.Sample.{Dice, IsFair, sample_duration_bounds}
use instadroid.Schedule.Delays.{
  Settings, backoff_factor, widened, poll_interval_seconds, Ending, success, transient, fatal,
  next_sleep_seconds,
}
use instadroid.Db.Runs.{Run, Snapshot, Metrics, record_run, consecutive_failures, leading_errors}

-- The factor is a power of two, at least 1, and grows with the failures.
factor_pos : (n : ℕ) → 1 ≤ 2 ^ n
factor_pos n = one-le-pow n 2 (omega arith)

power_mono : (a b : ℕ) → a ≤ b → 2 ^ a ≤ 2 ^ b
power_mono a b h = pow-le-pow_right (omega arith) h

backoff_factor_mono : (n : ℕ) → backoff_factor n ≤ backoff_factor (suc n)
unfolding backoff_factor
backoff_factor_mono n = power_mono (min (n - 1) 16) (min (suc n - 1) 16) (omega arith)

backoff_factor-pos : (n : ℕ) → 1 ≤ backoff_factor n
unfolding backoff_factor
backoff_factor-pos n = factor_pos (min (n - 1) 16)

times_factor : (seconds n : ℕ) → seconds ≤ seconds * backoff_factor n
times_factor seconds n = let h = backoff_factor-pos n in grind arith

times_factor_mono : (seconds n : ℕ) → seconds * backoff_factor n ≤ seconds * backoff_factor (suc n)
times_factor_mono seconds n = let h = backoff_factor_mono n in grind arith

-- The interval after one failure or none is the drawn one. After more it is never shorter than the
-- drawn one, and never longer than the backoff limit or the drawn one, whichever is more.
widened_bounds :
    (s : Settings) (failures seconds : ℕ)
    → (seconds ≤ widened s failures seconds)
      × (widened s failures seconds ≤ max s.backoff_max seconds)
      × (failures ≤ 1 → widened s failures seconds ≡ seconds)
unfolding widened
widened_bounds s failures seconds = ground (arith, times_factor seconds failures)

-- One more failed run never shortens the interval.
pub widened_mono :
    (s : Settings) (failures seconds : ℕ)
    → widened s failures seconds ≤ widened s (suc failures) seconds
unfolding widened
widened_mono s failures seconds =
    ground (arith, times_factor seconds (suc failures), times_factor_mono seconds failures)

-- A transient failure with a retry left sleeps its delay, lengthened by at most half (twice that in
-- the quiet hours of "daynight"), and counts the retry. Anything else sleeps a poll interval and
-- starts the count again.
next_sleep_seconds-retries :
    (s : Settings) (d : Dice) (quiet : Bool) (attempt failures delay : ℕ)
    → IsFair d
    → get_elem? s.retry_delays attempt ≡ some delay
    → let (seconds, attempt') = next_sleep_seconds s d quiet transient attempt failures in
      (delay ≤ seconds) × (seconds ≤ 2 * delay) × (attempt' ≡ attempt + 1)
unfolding next_sleep_seconds
next_sleep_seconds-retries s d quiet attempt failures delay fair e =
    let drawn =
      sample_duration_bounds s.distribution d quiet delay (delay * 3 / 2) fair (omega arith) in
    ground (arith, drawn)

get_elem?-none {ℓ} : {A : Type ℓ} (xs : List A) (i : ℕ) → length xs ≤ i → get_elem? xs i ≡ none
get_elem?-none [] i h = refl
get_elem?-none (x ∷ xs) zero h = elim h [ ]
get_elem?-none (x ∷ xs) (suc i) h = get_elem?-none xs i (omega arith)

-- After as many transient failures in a row as there are retry delays, the next one sleeps a poll
-- interval; so does a success or any other error at once. The retry count then starts again at 0.
pub next_sleep_seconds-polls :
    (s : Settings) (d : Dice) (quiet : Bool) (ending : Ending) (attempt failures : ℕ)
    → (ending ≡ transient → length s.retry_delays ≤ attempt)
    → next_sleep_seconds s d quiet ending attempt failures
      ≡ (poll_interval_seconds s d quiet failures, 0)
unfolding next_sleep_seconds
next_sleep_seconds-polls s d quiet success attempt failures h = refl
next_sleep_seconds-polls s d quiet fatal attempt failures h = refl
next_sleep_seconds-polls s d quiet transient attempt failures h =
    rw (get_elem?-none s.retry_delays attempt (h refl))

-- The poll loop's own count of failed runs, which goes on past 64, and the one read back from the
-- table after a restart.
abbrev pub counted : ℕ → Option Text → ℕ
counted failures none = 0
counted failures (some error) = suc failures

leading_errors-take :
    (n : ℕ) (runs : List Run) → leading_errors (take n runs) ≡ min n (leading_errors runs)
unfolding leading_errors
leading_errors-take zero runs = omega arith
leading_errors-take (suc n) [] = omega arith
leading_errors-take (suc n) (r ∷ runs) = ground (arith, leading_errors-take n runs)

-- A restart does not forget failures: the count read from the runs table after a run is recorded is
-- what the loop's own counter comes to, up to 64.
pub consecutive_failures-record_run :
    (runs : List Run) (failures started finished new_posts : ℕ) (error : Option Text)
    (snapshot : Option Snapshot) (stats : Metrics)
    → consecutive_failures runs ≡ min 64 failures
    → consecutive_failures (record_run runs started finished new_posts error snapshot stats)
      ≡ min 64 (counted failures error)
unfolding consecutive_failures record_run leading_errors
consecutive_failures-record_run runs failures started finished new_posts none snapshot stats h =
    refl
consecutive_failures-record_run runs failures started finished new_posts (some e) snapshot stats h =
    omega (arith, leading_errors-take 64 runs, leading_errors-take 63 runs)
