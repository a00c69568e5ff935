-- ===== src/Diagnostics/Backups.antt =====
-- backup_database() of app/instadroid/backup.py. BACKUP_DIR is what backups() lists: the times in the
-- names of its backups in whole seconds, oldest first, with no name twice. Copying the database is
-- SQLite's.
use instadroid.Prelude.{
  ℕ, ◌+◌, ◌-◌, Bool, false, not, ◌&&◌, ◌||◌, Option, none, some, List, [], ◌∷◌, ltb, ◌==◌,
  if◌then◌else◌, length, drop,
}

-- BACKUP_EVERY_HOURS in seconds, 0 where it is not above 0, and BACKUP_KEEP, likewise
pub record BackupSettings : Type 0 where
  pub every : ℕ
  pub kept : ℕ

-- existing[-1]
unfoldable pub newest : List ℕ → Option ℕ
newest [] = none
newest (t ∷ []) = some t
newest (t ∷ u ∷ ts) = newest (u ∷ ts)

-- newest and now - newest < BACKUP_EVERY_HOURS, also where the clock went back behind it
unfoldable pub is_recent : ℕ → ℕ → Option ℕ → Bool
is_recent every now none = false
is_recent every now (some t) = ltb now (t + every)

unfoldable pub is_due : BackupSettings → Bool → ℕ → List ℕ → Bool
is_due s force now taken =
    force || (not (s.every == 0) && not (is_recent s.every now (newest taken)))

-- partial.replace(dest): a backup of that name is replaced
unfoldable pub add_backup : ℕ → List ℕ → List ℕ
add_backup now [] = now ∷ []
add_backup now (t ∷ ts) =
    if ltb now t then now ∷ t ∷ ts else (if t == now then t ∷ ts else t ∷ add_backup now ts)

-- all but the newest BACKUP_KEEP are deleted
unfoldable pub prune_backups : ℕ → List ℕ → List ℕ
prune_backups keep taken = if keep == 0 then taken else drop (length taken - keep) taken

-- the new backup, if one was due, and the directory
unfoldable pub backup_database : BackupSettings → Bool → ℕ → List ℕ → Option ℕ × List ℕ
backup_database s force now taken =
    if is_due s force now taken
    then (some now, prune_backups s.kept (add_backup now taken))
    else (none, taken)
