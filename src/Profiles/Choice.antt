-- ===== src/Profiles/Choice.antt =====
-- app/igprofiles/__init__.py: normalize(), available(), load(), covering(), newest_build(),
-- default_build(), newer_build() and select(). A profile's directory name vXYZ stands as its number;
-- importing a profile's package is a parameter, as is Python's `str.lower`. none is an exception.
use instadroid.Prelude.{
  ℕ, ◌+◌, ◌-◌, ◌*◌, Bool, true, false, not, ◌&&◌, Option, none, some, List, [], ◌∷◌, ◌++◌, leb, ltb,
  ◌==◌, if◌then◌else◌, Text, codes, any, find?, starts_with, text_eq,
}
use mathlib.Core.List.{reverse}
use instadroid.Prelude.Strip.{strip}
use instadroid.Common.{is_digit}
use instadroid.Feed.Cards.{is_empty}
use instadroid.Profiles.Builds.{Profile, version_key, key_less, major_of}

abbrev pub min_major : ℕ
min_major = 424

-- a directory of igprofiles/, and whether it has an __init__.py
pub record Directory : Type 0 where
  pub name : Text
  pub has_init : Bool

is_end : Text → Bool
is_end [] = true
is_end (c ∷ []) = c == 10
is_end (c ∷ d ∷ s) = false

-- `^v(\d{3})$`: the `$` also matches before a newline at the end
unfoldable pub profile_number : Text → Option ℕ
unfolding is_end is_digit
profile_number (v ∷ a ∷ b ∷ c ∷ s) =
    if (v == b'v' && is_end s) && (is_digit a && (is_digit b && is_digit c))
    then some ((a - b'0') * 100 + (b - b'0') * 10 + (c - b'0'))
    else none
profile_number s = none

unfoldable pub insert_number : ℕ → List ℕ → List ℕ
insert_number n [] = n ∷ []
insert_number n (m ∷ ms) = if leb n m then n ∷ m ∷ ms else m ∷ insert_number n ms

unfoldable pub listed : Option ℕ → Bool → List ℕ → List ℕ
listed none has_init numbers = numbers
listed (some n) has_init numbers =
    if has_init && leb min_major n then insert_number n numbers else numbers

-- available()
unfoldable pub available : List Directory → List ℕ
unfolding listed
available [] = []
available (d ∷ dirs) = listed (profile_number d.name) d.has_init (available dirs)

unfoldable pub normalize : (Text → Text) → Text → Text
normalize lower name =
    let s = lower (strip name) in if starts_with s (codes "v") then s else codes "v" ++ s

-- What is installed: the directories, the Profile that importing one defines with its attributes, if
-- it does, and `str.lower`.
pub record Library : Type 0 where
  pub dirs : List Directory
  pub imported : ℕ → Option Profile
  pub lower : Text → Text

-- `(major_of(b) or 0) < profile.major`
is_below : ℕ → Text → Bool
is_below major b = elim (major_of (some b)) [ none ↦ ltb 0 major | some n ↦ ltb n major ]

-- the checks on what was imported
unfoldable pub checked : ℕ → Option Profile → Option Profile
unfolding is_below
checked n none = none
checked n (some p) =
    if p.major == n && not (any (is_below p.major) p.validated) then some p else none

-- load(), of the number that a name stands for
unfoldable pub load_number : Library → ℕ → Option Profile
load_number lib n =
    if leb min_major n && any (λ m. m == n) (available lib.dirs)
    then checked n (lib.imported n)
    else none

unfoldable pub load : Library → Text → Option Profile
load lib name = elim (profile_number (normalize lib.lower name)) [
  | none ↦ none
  | some n ↦ load_number lib n
]

-- covering()
unfoldable pub covering : List ℕ → Option ℕ → Option ℕ
covering names none = none
covering names (some major) = find? (λ n. leb n major) (reverse names)

-- max(…, key=version_key): the first of the greatest
unfoldable pub newer_of : Text → List Text → Text
newer_of best [] = best
newer_of best (b ∷ builds) =
    newer_of (if key_less (version_key best) (version_key b) then b else best) builds

unfoldable pub newest_of : List Text → Option Text
newest_of [] = none
newest_of (b ∷ builds) = some (newer_of b builds)

-- the validated builds of these profiles; none is load()'s ValueError
unfoldable pub builds_of : Library → List ℕ → Option (List Text)
builds_of lib [] = some []
builds_of lib (n ∷ names) = elim (load_number lib n) [
  | none ↦ none
  | some p ↦ elim (builds_of lib names) [ none ↦ none | some builds ↦ some (p.validated ++ builds) ]
]

-- newest_build() across every profile
unfoldable pub newest_build : Library → Option (Option Text)
newest_build lib = elim (builds_of lib (available lib.dirs)) [
  | none ↦ none
  | some builds ↦ some (newest_of builds)
]

-- newest_build() and default_build() of a profile by its name, with DEFAULT_BUILD
unfoldable pub newest_build_of : Library → Text → Option (Option Text)
newest_build_of lib name = elim (load lib name) [
  | none ↦ none
  | some p ↦ some (newest_of p.validated)
]

unfoldable pub default_build : Library → Option Text → Option Text → Option (Option Text)
default_build lib none none = newest_build lib
default_build lib none (some name) = newest_build_of lib name
default_build lib (some build) none = some (some build)
default_build lib (some build) (some name) = elim (load lib name) [
  | none ↦ none
  | some p ↦
      if any (λ b. text_eq b build) p.validated
      then some (some build)
      else some (newest_of p.validated)
]

-- a candidate that is newer than what is installed
unfoldable pub if_newer : Text → Option Text → Option Text
if_newer installed none = none
if_newer installed (some b) =
    if not (is_empty b) && key_less (version_key installed) (version_key b) then some b else none

-- newer_build(): DEFAULT_BUILD comes first
unfoldable pub newer_build : Library → Option Text → Option Text → Option (Option Text)
newer_build lib default none = some none
newer_build lib default (some installed) = elim (major_of (some installed)) [
  | none ↦ some none
  | some m ↦ elim (newest_build lib) [
    | none ↦ none
    | some newest ↦ elim (if_newer installed default) [
      | some b ↦ some (some b)
      | none ↦ some (if_newer installed newest)
    ]
  ]
]

-- the warnings of select(): IG_PROFILE cannot be loaded, and the version is older than every profile
pub record Warnings : Type 0 where
  pub bad_request : Bool
  pub too_old : Bool

unfoldable pub last_of : List ℕ → Option ℕ
last_of [] = none
last_of (n ∷ []) = some n
last_of (n ∷ m ∷ ns) = last_of (m ∷ ns)

unfoldable pub first_of : List ℕ → Option ℕ
first_of [] = none
first_of (n ∷ ns) = some n

unfoldable pub load_or_fail : Library → Option ℕ → Warnings → Option (Profile × Warnings)
load_or_fail lib none w = none
load_or_fail lib (some n) w = elim (load_number lib n) [ none ↦ none | some p ↦ some (p, w) ]

-- select() once IG_PROFILE is out of the question
unfoldable pub select_installed : Library → Bool → Option Text → Option (Profile × Warnings)
select_installed lib bad installed =
    let names = available lib.dirs in
    elim (covering names (major_of installed)) [
      | some n ↦ load_or_fail lib (some n) (record { bad_request = bad; too_old = false })
      | none ↦ elim (major_of installed) [
        | some m ↦ load_or_fail lib (first_of names) (record { bad_request = bad; too_old = true })
        | none ↦ load_or_fail lib (last_of names) (record { bad_request = bad; too_old = false })
      ]
    ]

unfoldable pub select : Library → Text → Option Text → Option (Profile × Warnings)
select lib requested installed =
    if is_empty (strip requested)
    then select_installed lib false installed
    else elim (load lib requested) [
      | some p ↦ some (p, record { bad_request = false; too_old = false })
      | none ↦ select_installed lib true installed
    ]
