-- ===== src/Common.antt =====
-- app/instadroid/common.py: bounds strings and file names.
pub mod Geometry
use instadroid.Prelude.{
  ℕ, ◌+◌, ◌-◌, ◌*◌, ◌/◌, max, Bool, true, false, not, ◌&&◌, ◌||◌, Option, none, some, List, [], ◌∷◌,
  leb, ◌==◌, if◌then◌else◌, Text, codes, text_eq, all,
}
use mathlib.Core.Option
use instadroid.Parsing.Identity.{or_empty}

pub record Box : Type 0 where
  pub x1 : ℕ
  pub y1 : ℕ
  pub x2 : ℕ
  pub y2 : ℕ

unfoldable pub is_digit : ℕ → Bool
is_digit c = leb b'0' c && leb c b'9'

-- the digits that follow, on `n`
more_digits : ℕ → Text → ℕ × Text
more_digits n [] = (n, [])
more_digits n (c ∷ s) =
    let rest = more_digits (n * 10 + (c - b'0')) s in if is_digit c then rest else (n, c ∷ s)

-- `(\d+)` and the text behind it
number : Text → Option (ℕ × Text)
number [] = none
number (c ∷ s) = if is_digit c then some (more_digits (c - b'0') s) else none

-- one given character, and the text behind it
expect : ℕ → Text → Option Text
expect sep [] = none
expect sep (c ∷ s) = if c == sep then some s else none

infixl 5 ◌>>=◌
abbrev ◌>>=◌ {ℓ κ} : {A : Type ℓ} {B : Type κ} → Option A → (A → Option B) → Option B
none >>= k = none
some a >>= k = k a

-- "[x,y]" and the text behind it
corner : Text → Option (ℕ × ℕ × Text)
unfolding number expect
corner s = do
  s1 ← expect b'[' s
  (x, s2) ← number s1
  s3 ← expect 0x2c s2
  (y, s4) ← number s3
  s5 ← expect b']' s4
  some (x, y, s5)

unfoldable pub parse_bounds : Option Text → Option Box
unfolding corner more_digits is_digit
parse_bounds bounds = do
  (x1, y1, s) ← corner (or_empty bounds)
  (x2, y2, s') ← corner s
  some (record { x1 = x1; y1 = y1; x2 = x2; y2 = y2 })

unfoldable pub bounds_center : Option Text → Option (ℕ × ℕ)
bounds_center bounds =
    Option.map (λ b. ((b.x1 + b.x2) / 2, (b.y1 + b.y2) / 2)) (parse_bounds bounds)

unfoldable pub bounds_bottom_right : Option Text → ℕ → Option (ℕ × ℕ)
bounds_bottom_right bounds inset =
    Option.map (λ b. (max b.x1 (b.x2 - inset), max b.y1 (b.y2 - inset))) (parse_bounds bounds)

unfoldable pub is_handle_char : ℕ → Bool
is_handle_char c =
    (leb b'A' c && leb c b'Z') || (leb b'a' c && leb c b'z') || is_digit c || c == b'.' || c == b'_'

unfoldable pub is_nil : Text → Bool
is_nil [] = true
is_nil (e ∷ t) = false

-- `^[A-Za-z0-9._]+$`: the `$` also matches before a newline at the end
unfoldable pub handle : Text → Bool
handle [] = false
handle (c ∷ []) = is_handle_char c
handle (c ∷ d ∷ s) = is_handle_char c && (if (d == 10) && is_nil s then true else handle (d ∷ s))

unfoldable pub safe_filename : Text → Option Text
safe_filename username =
    if text_eq username (codes ".") || text_eq username (codes "..")
    then none
    else if handle username
    then some username
    else none
