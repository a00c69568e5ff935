-- ===== src/Db/Drift.antt =====
-- check_selector_drift() of app/instadroid/db.py. A yield is a whole number of some unit, a metric's
-- column the values of the runs read, NULLs left out, and the threshold a percentage; the comparison
-- with the average is multiplied out.
use instadroid.Prelude.{
  ℕ, zero, suc, ◌+◌, ◌*◌, ◌≤◌, ◌≡◌, Bool, false, not, ◌&&◌, List, [], ◌∷◌, ◌++◌, arith, ltb, ◌==◌,
  if◌then◌else◌, length, take, All,
}

unfoldable pub sum : List ℕ → ℕ
sum [] = 0
sum (v ∷ vs) = v + sum vs

-- the rows are those of successful runs with a yield, newest first
pub record Yield : Type 0 where
  pub cards_per_screen : ℕ
  pub share_captioned : ℕ
  pub share_complete : ℕ

pub record DriftSettings : Type 0 where
  pub baseline_runs : ℕ
  pub threshold : ℕ
  pub min_runs : ℕ

abbrev pub column : (Yield → ℕ) → List Yield → List ℕ
column f [] = []
column f (y ∷ ys) = f y ∷ column f ys

-- a metric that dropped
unfoldable pub has_dropped : DriftSettings → ℕ → List ℕ → Bool
has_dropped s current baseline =
    not (ltb (length baseline) s.min_runs)
    && (ltb 0 (sum baseline) && ltb (current * length baseline * 100) (sum baseline * s.threshold))

-- the three metrics, in order, that dropped
unfoldable pub check_selector_drift : DriftSettings → Yield → List Yield → List ℕ
check_selector_drift s y runs =
    let rows = take s.baseline_runs runs in
    if s.baseline_runs == 0
    then []
    else (if has_dropped s y.cards_per_screen (column (λ r. r.cards_per_screen) rows)
        then 0 ∷ []
        else [])
      ++ (if has_dropped s y.share_captioned (column (λ r. r.share_captioned) rows)
          then 1 ∷ []
          else [])
      ++ (if has_dropped s y.share_complete (column (λ r. r.share_complete) rows)
          then 2 ∷ []
          else [])

sum-le : (m : ℕ) (vs : List ℕ) → All (λ v. v ≤ m) vs → sum vs ≤ m * length vs
unfolding sum
sum-le m [] h = ground arith
sum-le m (v ∷ vs) (e, h) = ground (arith, e, sum-le m vs h)

mul-le : (a b c : ℕ) → b ≤ c → a * b ≤ a * c
mul-le zero b c h = ground arith
mul-le (suc a) b c h = ground (arith, mul-le a b c h)

-- A yield no lower than that of any run it is compared with is never a drop, at a threshold of at most
-- 100 percent.
has_dropped-steady :
    (s : DriftSettings) (current : ℕ) (baseline : List ℕ)
    → s.threshold ≤ 100
    → All (λ v. v ≤ current) baseline
    → has_dropped s current baseline ≡ false
unfolding has_dropped
has_dropped-steady s current baseline t h =
    ground (arith, sum-le current baseline h, mul-le (sum baseline) s.threshold 100 t)
