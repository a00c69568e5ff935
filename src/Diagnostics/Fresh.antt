-- ===== src/Diagnostics/Fresh.antt =====
-- Backups taken at the ends of runs by app/instadroid/backup.py: how far apart they are, how many are
-- kept, and how old the newest one is.
use instadroid.Prelude.{
  ℕ, zero, suc, ◌+◌, ◌-◌, ◌≤◌, ◌<◌, ◌≡◌, refl, ◌∙◌, inl, inr, true, false, Option, none, some, List,
  [], ◌∷◌, ◌++◌, arith, ◌==◌, length, drop, length-append, length-drop, All, All-append, Bool-cases,
}
use instadroid.Diagnostics.Backups.{
  BackupSettings, newest, is_recent, is_due, add_backup, prune_backups, backup_database,
}

-- any two of them are at least so many seconds apart, the older one first
abbrev pub IsSpaced : ℕ → List ℕ → Type 0
IsSpaced e [] = Unit
IsSpaced e (t ∷ ts) = All (λ u. t + e ≤ u) ts × IsSpaced e ts

-- the newest one is younger than so many seconds
abbrev pub IsFresh : ℕ → ℕ → List ℕ → Type 0
IsFresh e now ts = (t : ℕ) × (newest ts ≡ some t) × (now < t + e)

-- every backup has been there for the interval
IsPast : ℕ → ℕ → List ℕ → Type 0
IsPast e now ts = All (λ t. t + e ≤ now) ts

newest-IsPast :
    (e now : ℕ) (ts : List ℕ)
    → IsSpaced e ts
    → is_recent e now (newest ts) ≡ false
    → IsPast e now ts
unfolding newest is_recent IsPast
newest-IsPast e now [] h k = tt
newest-IsPast e now (t ∷ []) h k = (ground arith, tt)
newest-IsPast e now (t ∷ u ∷ ts) ((h, hs), hu) k =
    let (b, bs) = newest-IsPast e now (u ∷ ts) hu k in (omega arith, (b, bs))

add_backup-last :
    (e now : ℕ) (ts : List ℕ) → 1 ≤ e → IsPast e now ts → add_backup now ts ≡ ts ++ now ∷ []
unfolding add_backup IsPast
add_backup-last e now [] h k = refl
add_backup-last e now (t ∷ ts) h (k, ks) = ground (arith, add_backup-last e now ts h ks)

IsSpaced-append :
    (e now : ℕ) (ts : List ℕ) → IsSpaced e ts → IsPast e now ts → IsSpaced e (ts ++ now ∷ [])
unfolding IsPast
IsSpaced-append e now [] h k = (tt, tt)
IsSpaced-append e now (t ∷ ts) (h, hs) (k, ks) =
    (All-append _ ts (now ∷ []) h (k, tt), IsSpaced-append e now ts hs ks)

newest-append : (now : ℕ) (ts : List ℕ) → newest (ts ++ now ∷ []) ≡ some now
unfolding newest
newest-append now [] = refl
newest-append now (t ∷ []) = refl
newest-append now (t ∷ u ∷ ts) = newest-append now (u ∷ ts)

IsSpaced-drop : (e n : ℕ) (ts : List ℕ) → IsSpaced e ts → IsSpaced e (drop n ts)
IsSpaced-drop e zero ts h = h
IsSpaced-drop e (suc n) [] h = tt
IsSpaced-drop e (suc n) (t ∷ ts) (h, hs) = IsSpaced-drop e n ts hs

newest-drop : (n : ℕ) (ts : List ℕ) → n < length ts → newest (drop n ts) ≡ newest ts
unfolding newest
newest-drop zero ts h = refl
newest-drop (suc n) [] h = absurd (omega arith)
newest-drop (suc n) (t ∷ []) h = absurd (omega arith)
newest-drop (suc n) (t ∷ u ∷ ts) h = newest-drop n (u ∷ ts) (omega arith)

recent-IsFresh :
    (e now : ℕ) (t : Option ℕ) → is_recent e now t ≡ true → (u : ℕ) × (t ≡ some u) × (now < u + e)
unfolding is_recent
recent-IsFresh e now none h = cc
recent-IsFresh e now (some t) h = (t, refl, ground arith)

-- What pruning leaves of a directory with a backup: as many as are kept, the newest one among them.
prune_backups-keeps :
    (e k now : ℕ) (ts : List ℕ)
    → 1 ≤ e
    → 1 ≤ k
    → 1 ≤ length ts
    → newest ts ≡ some now
    → IsSpaced e ts
    → let left = prune_backups k ts in IsSpaced e left × (length left ≤ k) × IsFresh e now left
unfolding prune_backups
prune_backups-keeps e k now ts pe pk pl h spaced =
    let n = length ts - k in
    let on : (k == 0) ≡ false = ground arith in
    rw on (
      IsSpaced-drop e n ts spaced,
      omega (arith, length-drop n ts),
      (now, newest-drop n ts (omega arith) ∙ h, omega arith),
    )

-- Let BACKUP_EVERY_HOURS and BACKUP_KEEP be above 0, and let the backups in the directory be at least
-- the interval apart and no more than are kept. Then an automatic backup at any time, taken or not,
-- leaves backups that are still at least the interval apart and no more than are kept, and the newest of
-- them is younger than the interval.
pub backup_database-IsFresh :
    (s : BackupSettings) (now : ℕ) (taken : List ℕ)
    → 1 ≤ s.every
    → 1 ≤ s.kept
    → IsSpaced s.every taken
    → length taken ≤ s.kept
    → let left = (backup_database s false now taken).1 in
      IsSpaced s.every left × (length left ≤ s.kept) × IsFresh s.every now left
unfolding backup_database is_due
backup_database-IsFresh s now taken pe pk spaced few =
    let on : (s.every == 0) ≡ false = ground arith in
    elim (Bool-cases (is_recent s.every now (newest taken))) [
      | inl recent ↦ rw (on, recent) (spaced, few, recent-IsFresh s.every now (newest taken) recent)
      | inr old ↦
          let past = newest-IsPast s.every now taken spaced old in
          rw (on, old, add_backup-last s.every now taken pe past)
            (prune_backups-keeps s.every s.kept now (taken ++ now ∷ []) pe pk
              (omega (arith, length-append taken (now ∷ []))) (newest-append now taken)
              (IsSpaced-append s.every now taken spaced past))
    ]
