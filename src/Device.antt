-- ===== src/Device.antt =====
-- app/instadroid/device.py: MemoryGuard and RunClock, and _stop_reason() of app/instadroid/scrape.py.
-- Sizes are bytes, times seconds; the cgroup reading is what _redroid_memory() returns.
use instadroid.Prelude.{
  ℕ, ◌+◌, ◌-◌, ◌*◌, ◌/◌, ◌≤◌, ◌≡◌, ◌↔◌, ◌⊎◌, refl, max, Bool, true, false, not, ◌&&◌, ◌||◌, Option,
  none, some, List, [], ◌∷◌, arith, ltb, ◌==◌,
}

pub record MemoryReading : Type 0 where
  pub current : ℕ
  pub limit : Option ℕ
  pub oom_kill : ℕ

pub record MemoryGuard : Type 0 where
  pub peak : Option ℕ
  pub oom_kill_start : Option ℕ

or_zero : Option ℕ → ℕ
or_zero none = 0
or_zero (some n) = n

-- _read(): what it leaves of the guard
unfoldable pub read : Option MemoryReading → MemoryGuard → MemoryGuard
unfolding or_zero
read none guard = guard
read (some m) guard = record guard { peak = some (max (or_zero guard.peak) m.current) }

-- __init__()
unfoldable pub new_guard : Option MemoryReading → MemoryGuard
new_guard none = record { peak = none; oom_kill_start = none }
new_guard (some m) = read (some m) (record { peak = none; oom_kill_start = some m.oom_kill })

-- MemoryGuard.exceeded(), true for a reason
unfoldable pub memory_exceeded : ℕ → Option MemoryReading → Bool
memory_exceeded percent none = false
memory_exceeded percent (some m) = elim m.limit [
  | none ↦ false
  | some limit ↦
      not (percent == 0) && (not (limit == 0) && not (ltb (m.current * 100) (limit * percent)))
]

unfoldable pub peak_mb : MemoryGuard → Option ℕ
peak_mb guard = elim guard.peak [ none ↦ none | some p ↦ some (p / 1048576) ]

-- MemoryGuard.oom_kills()
unfoldable pub oom_kills : Option MemoryReading → MemoryGuard → Option ℕ
oom_kills none guard = none
oom_kills (some m) guard = elim guard.oom_kill_start [
  | none ↦ none
  | some n ↦ some (m.oom_kill - n)
]

-- RunClock.exceeded(), true for a reason; RUN_MAX_MINUTES in seconds
unfoldable pub clock_exceeded : ℕ → ℕ → ℕ → Bool
clock_exceeded run_max started now = not (run_max == 0) && not (ltb (now - started) run_max)

-- _stop_reason(): whether there is one
unfoldable pub stop_reason : ℕ → ℕ → Option MemoryReading → ℕ → ℕ → Bool
stop_reason percent run_max m started now =
    memory_exceeded percent m || clock_exceeded run_max started now

-- the readings of a run, one after the other
unfoldable pub read_all : List (Option MemoryReading) → MemoryGuard → MemoryGuard
read_all [] guard = guard
read_all (m ∷ readings) guard = read_all readings (read m guard)

abbrev pub largest : List (Option MemoryReading) → ℕ
largest [] = 0
largest (none ∷ readings) = largest readings
largest (some m ∷ readings) = max m.current (largest readings)

read_all-peak :
    (readings : List (Option MemoryReading)) (guard : MemoryGuard) (x : ℕ)
    → guard.peak ≡ some x
    → (read_all readings guard).peak ≡ some (max x (largest readings))
unfolding read_all read or_zero
read_all-peak [] guard x e = ground (arith, e)
read_all-peak (none ∷ readings) guard x e = read_all-peak readings guard x e
read_all-peak (some m ∷ readings) guard x e =
    ground
      (arith, read_all-peak readings (read (some m) guard) (max x m.current) (ground (arith, e)))

-- The peak that a run reports is the largest of its readings, in whole MiB, where it has one.
peak_mb-largest :
    (m : MemoryReading) (readings : List (Option MemoryReading))
    → peak_mb (read_all readings (new_guard (some m)))
      ≡ some (largest (some m ∷ readings) / 1048576)
unfolding peak_mb new_guard read or_zero
peak_mb-largest m readings =
    rw (read_all-peak readings (new_guard (some m)) m.current (ground arith)) refl

-- A run is stopped exactly when the memory in use is at the guarded share of a known limit, or when it
-- has taken its time budget; a setting of 0 turns either off.
stop_reason_iff :
    (percent run_max limit started now : ℕ) (m : MemoryReading)
    → m.limit ≡ some limit
    → (stop_reason percent run_max (some m) started now ≡ true) ↔ (
        (((1 ≤ percent) × ((1 ≤ limit) × (limit * percent ≤ m.current * 100)))
          ⊎ ((1 ≤ run_max) × (run_max + started ≤ now))))
unfolding stop_reason memory_exceeded clock_exceeded
stop_reason_iff percent run_max limit started now m e = ground (arith, e)
