-- ===== src/Schedule/Sample.antt =====
-- app/instadroid/device.py: the random durations. Python's `random` is a parameter, the draws that it
-- hands out.
use instadroid.Prelude.{
  ℕ, zero, suc, ◌+◌, ◌-◌, ◌≤◌, ◌<◌, ◌≡◌, ◌↔◌, ◌/◌, ◌%◌, Bool, true, false, ◌&&◌, ◌||◌, min, max,
  arith, ltb, leb, if◌then◌else◌,
}

pub data Distribution : Type 0 where
  uniform lognormal daynight : Distribution

-- random.uniform(lo, hi), and the lognormal draws of one call by their number.
pub record Dice : Type 0 where
  pub uniform_draw : ℕ → ℕ → ℕ
  pub lognormal_draw : ℕ → ℕ

-- `random.uniform(lo, hi)` lies between its bounds.
pub record IsFair (d : Dice) : Type 0 where
  pub between : (lo hi : ℕ) → lo ≤ hi → (lo ≤ d.uniform_draw lo hi) × (d.uniform_draw lo hi ≤ hi)

-- _in_quiet_hours(), at a local hour
unfoldable pub in_quiet_hours : ℕ → ℕ → ℕ → Bool
in_quiet_hours start end local_hour =
    if leb start end
    then leb start local_hour && ltb local_hour end
    else leb start local_hour || ltb local_hour end

-- the loop over 8 lognormal draws; the last draw is clipped
resample : Dice → ℕ → ℕ → ℕ → ℕ → ℕ → ℕ
resample d lo top zero i v = min (max v lo) top
resample d lo top (suc tries) i v =
    let v' = d.lognormal_draw i in
    let rest = resample d lo top tries (i + 1) v' in if leb lo v' && leb v' top then v' else rest

is_daynight : Distribution → Bool
is_daynight daynight = true
is_daynight _ = false

is_uniform : Distribution → Bool
is_uniform uniform = true
is_uniform _ = false

-- the top of the range, stretched in the quiet hours
unfoldable pub effective_hi : Distribution → Bool → ℕ → ℕ → ℕ
unfolding is_daynight
effective_hi dist quiet lo hi = if is_daynight dist && quiet then hi + (hi - lo) else hi

unfoldable pub sample_duration : Distribution → Dice → Bool → ℕ → ℕ → ℕ
unfolding is_uniform effective_hi resample
sample_duration dist d quiet lo hi =
    if is_uniform dist || leb hi lo
    then d.uniform_draw lo hi
    else let top = effective_hi dist quiet lo hi in resample d lo top 8 0 ((lo + top) / 2)

resample_bounds :
    (d : Dice) (lo top tries i v : ℕ)
    → lo ≤ top
    → (lo ≤ resample d lo top tries i v) × (resample d lo top tries i v ≤ top)
unfolding resample
resample_bounds d lo top zero i v h = omega arith
resample_bounds d lo top (suc tries) i v h =
    ground (arith, resample_bounds d lo top tries (i + 1) (d.lognormal_draw i) h)

-- Whatever the distribution and the draws, a duration lies in its range; only the quiet hours of
-- "daynight" stretch the range, by its own width.
pub sample_duration_bounds :
    (dist : Distribution) (d : Dice) (quiet : Bool) (lo hi : ℕ)
    → IsFair d
    → lo ≤ hi
    → (lo ≤ sample_duration dist d quiet lo hi)
      × (sample_duration dist d quiet lo hi ≤ hi + (hi - lo))
      × (quiet ≡ false → sample_duration dist d quiet lo hi ≤ hi)
unfolding sample_duration effective_hi
sample_duration_bounds uniform d quiet lo hi fair le = ground (arith, fair.between lo hi le)
sample_duration_bounds lognormal d quiet lo hi fair le =
    ground (arith, fair.between lo hi le, resample_bounds d lo hi 8 0 ((lo + hi) / 2) le)
sample_duration_bounds daynight d true lo hi fair le =
    let top = hi + (hi - lo) in
    let drawn = resample_bounds d lo top 8 0 ((lo + top) / 2) (omega arith) in
    (ground (arith, fair.between lo hi le), ground (arith, fair.between lo hi le), λ h. cc)
sample_duration_bounds daynight d false lo hi fair le =
    ground (arith, fair.between lo hi le, resample_bounds d lo hi 8 0 ((lo + hi) / 2) le)

-- The quiet hours are those from the start to the end, counted round the clock.
in_quiet_hours_iff :
    (start end hour : ℕ)
    → start < 24
    → end < 24
    → hour < 24
    → (in_quiet_hours start end hour ≡ true) ↔ ((hour + 24 - start) % 24 < (end + 24 - start) % 24)
unfolding in_quiet_hours
in_quiet_hours_iff start end hour s e h = ground arith
