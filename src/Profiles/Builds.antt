-- ===== src/Profiles/Builds.antt =====
-- version_key() of app/igprofiles/__init__.py, major_of(), suspected() and verification() of
-- app/igprofiles/base.py. Digits are ASCII's.
use instadroid.Prelude.{
  ℕ, ◌+◌, ◌-◌, ◌*◌, Bool, true, false, ◌&&◌, ◌||◌, Option, none, some, List, [], ◌∷◌, leb, ltb,
  ◌==◌, if◌then◌else◌, Text, any,
}
use instadroid.Common.{is_digit}
use instadroid.Parsing.Identity.{or_empty}

flush : Option ℕ → List ℕ → List ℕ
flush none numbers = numbers
flush (some n) numbers = n ∷ numbers

digit_on : Option ℕ → ℕ → ℕ
digit_on none c = c - b'0'
digit_on (some n) c = n * 10 + (c - b'0')

-- the numbers in a text, the one that is being read first
numbers_from : Option ℕ → Text → List ℕ
unfolding flush digit_on
numbers_from n [] = flush n []
numbers_from n (c ∷ s) =
    let inside = numbers_from (some (digit_on n c)) s in
    let outside = flush n (numbers_from none s) in if is_digit c then inside else outside

unfoldable pub version_key : Text → List ℕ
unfolding numbers_from is_digit
version_key build = numbers_from none build

-- `a < b` on two tuples
unfoldable pub key_less : List ℕ → List ℕ → Bool
key_less a [] = false
key_less [] (y ∷ b) = true
key_less (x ∷ a) (y ∷ b) = ltb x y || (x == y && key_less a b)

-- `(\d+)\.` from a digit on
major_from : ℕ → Text → Option ℕ
major_from n [] = none
major_from n (c ∷ s) =
    let more = major_from (n * 10 + (c - b'0')) s in
    if is_digit c then more else if c == b'.' then some n else none

first_major : Text → Option ℕ
unfolding major_from
first_major [] = none
first_major (c ∷ s) = if is_digit c then major_from (c - b'0') s else none

unfoldable pub major_of : Option Text → Option ℕ
unfolding first_major is_digit
major_of version = first_major (or_empty version)

-- A profile: its major version, and the builds validated with it (own_validated).
pub record Profile : Type 0 where
  pub major : ℕ
  pub validated : List Text

-- filter(None, map(major_of, builds)): 0 goes too
unfoldable pub with_major : Option ℕ → List ℕ → List ℕ
with_major none majors = majors
with_major (some n) majors = if n == 0 then majors else n ∷ majors

unfoldable pub majors_of : List Text → List ℕ
unfolding with_major
majors_of [] = []
majors_of (b ∷ builds) = with_major (major_of (some b)) (majors_of builds)

-- sorted(set(…))
unfoldable pub insert_once : ℕ → List ℕ → List ℕ
insert_once n [] = n ∷ []
insert_once n (m ∷ ms) =
    let rest = m ∷ insert_once n ms in
    if ltb n m then n ∷ m ∷ ms else if n == m then m ∷ ms else rest

unfoldable pub sorted_set : List ℕ → List ℕ
sorted_set [] = []
sorted_set (n ∷ ns) = insert_once n (sorted_set ns)

unfoldable pub gaps : List ℕ → List (ℕ × ℕ)
gaps [] = []
gaps (a ∷ []) = []
gaps (low ∷ high ∷ ns) =
    let rest = gaps (high ∷ ns) in if ltb 1 (high - low) then (low + 1, high - 1) ∷ rest else rest

unfoldable pub suspected : Profile → List (ℕ × ℕ)
suspected p = gaps (sorted_set (majors_of p.validated))

pub data Verification : Type 0 where
  confirmed : Verification
  likely : Verification

unfoldable pub is_major : ℕ → Text → Bool
is_major major b = elim (major_of (some b)) [ none ↦ false | some n ↦ n == major ]

unfoldable pub in_range : ℕ → ℕ × ℕ → Bool
in_range major (low, high) = leb low major && leb major high

unfoldable pub verification : Profile → Option ℕ → Option Verification
verification p none = none
verification p (some major) =
    if any (is_major major) p.validated
    then some confirmed
    else if any (in_range major) (suspected p)
    then some likely
    else none
