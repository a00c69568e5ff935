-- ===== src/Diagnostics/Names.antt =====
-- dump_stem() and parse_dump_name() of app/instadroid/diagnostics.py. The name is that of a file in a
-- directory, with no line break; what `\d` takes for a digit is a parameter.
use instadroid.Prelude.{
  ℕ, zero, suc, ◌+◌, ◌/◌, ◌%◌, Bool, true, false, ◌&&◌, ◌||◌, Option, none, some, [], ◌∷◌, ◌++◌,
  leb, ◌==◌, if◌then◌else◌, Text, codes, text_eq,
}

abbrev pub hierarchy_suffix : Text
hierarchy_suffix = codes "_hierarchy.xml"

abbrev pub fail_suffix : Text
fail_suffix = codes "-fail"

-- the last digit of a number
unfoldable pub digit : ℕ → ℕ
digit n = 48 + n % 10

-- a number above 0 in decimal, if the fuel is at least the number
unfoldable pub decimal : ℕ → ℕ → Text
decimal zero n = []
decimal (suc f) n = let rest = decimal f (n / 10) in if n == 0 then [] else rest ++ digit n ∷ []

-- f"{seq:03d}"
unfoldable pub padded : ℕ → Text
unfolding decimal
padded seq = decimal seq (seq / 1000) ++ digit (seq / 100) ∷ digit (seq / 10) ∷ digit seq ∷ []

unfoldable pub dump_stem : ℕ → Text → Bool → Text
dump_stem seq screen failure =
    padded seq ++ (b'-' ∷ (screen ++ (if failure then fail_suffix else [])))

-- [a-z_0-9]
unfoldable pub is_screen_char : ℕ → Bool
is_screen_char c = (leb b'a' c && leb c b'z') || c == b'_' || (leb b'0' c && leb c b'9')

unfoldable pub is_started : Text → Bool
is_started [] = false
is_started (c ∷ s) = true

-- the lazy group of the pattern: the screen so far, and the rest of the name
unfoldable pub screen_from : Text → Text → Option (Text × Bool)
unfolding is_started is_screen_char
screen_from screen [] = none
screen_from screen (c ∷ s) =
    let longer = screen_from (screen ++ c ∷ []) s in
    if is_started screen && text_eq (c ∷ s) (fail_suffix ++ hierarchy_suffix)
    then some (screen, true)
    else if is_started screen && text_eq (c ∷ s) hierarchy_suffix
    then some (screen, false)
    else if is_screen_char c
    then longer
    else none

module _ (is_digit : ℕ → Bool) where
  unfoldable pub parse_dump_name : Text → Option (Text × Bool)
  unfolding screen_from
  parse_dump_name (a ∷ b ∷ c ∷ d ∷ s) =
      if is_digit a && is_digit b && is_digit c && d == b'-' then screen_from [] s else none
  parse_dump_name _ = none
