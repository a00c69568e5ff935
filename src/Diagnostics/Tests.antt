-- ===== src/Diagnostics/Tests.antt =====
-- The name of a capture, and a fourth backup where three are kept.
use instadroid.Prelude.{
  ℕ, ◌≤◌, ◌≡◌, refl, Bool, true, false, ◌&&◌, none, some, List, [], ◌∷◌, ◌++◌, arith, if◌then◌else◌,
  Text, codes, length, leb, ltb,
}
use instadroid.Diagnostics.Names.{dump_stem, parse_dump_name, hierarchy_suffix, is_screen_char}
use instadroid.Diagnostics.Named.{parse_dump_name-dump_stem}
use instadroid.Diagnostics.Backups.{BackupSettings, backup_database}
use instadroid.Diagnostics.Fresh.{IsSpaced, IsFresh, backup_database-IsFresh}

abbrev daily : BackupSettings
daily = record { every = 86400; kept = 3 }

is_ascii_digit : ℕ → Bool
is_ascii_digit c = leb 48 c && leb c 57

parse_dump_name-dump_stem_example :
    let is_digit : ℕ → Bool = is_ascii_digit in
    let seq : ℕ = 7 in
    let screen : Text = codes "feed" in
    let failure : Bool = true in
    parse_dump_name is_digit (dump_stem seq screen failure ++ hierarchy_suffix)
    ≡ (if ltb seq 1000 then some (screen, failure) else none)
unfolding is_ascii_digit is_screen_char
parse_dump_name-dump_stem_example =
    parse_dump_name-dump_stem is_ascii_digit (λ c lo hi. ground arith) 7 (codes "feed") true
      (refl, (refl, (refl, (refl, tt)))) (λ e. cc)

backup_database-IsFresh_example :
    let s : BackupSettings = daily in
    let now : ℕ = 400000 in
    let taken : List ℕ = 100000 ∷ 200000 ∷ 300000 ∷ [] in
    let left = (backup_database s false now taken).1 in
    IsSpaced s.every left × (length left ≤ s.kept) × IsFresh s.every now left
backup_database-IsFresh_example =
    backup_database-IsFresh daily 400000 (100000 ∷ 200000 ∷ 300000 ∷ []) (omega arith) (omega arith)
      ((omega arith, (omega arith, tt)), ((omega arith, tt), (tt, tt))) (omega arith)
