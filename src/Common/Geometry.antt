-- ===== src/Common/Geometry.antt =====
-- Points taken from the bounds of a node, and what passes for a file name (app/instadroid/common.py).

use instadroid.Prelude.{
  ℕ, ◌+◌, ◌-◌, ◌/◌, ◌≤◌, ◌≡◌, ◌≢◌, refl, max, true, false, Option, some, [], ◌∷◌, ◌++◌, arith, Text,
  codes, text_eq, text_eq_iff, All,
}
use instadroid.Common.{
  Box, parse_bounds, bounds_center, bounds_bottom_right, is_digit, is_handle_char, is_nil, handle,
  safe_filename,
}

-- A tap at the centre of a node, or near its bottom right corner, lands on the node: both points lie
-- within its bounds, whatever the inset, and there is one exactly when the bounds can be read.
bounds_points :
    (bounds : Option Text) (inset : ℕ) (b : Box)
    → parse_bounds bounds ≡ some b
    → b.x1 ≤ b.x2
    → b.y1 ≤ b.y2
    → (x : ℕ) × (y : ℕ) × (u : ℕ) × (v : ℕ) × (bounds_center bounds ≡ some (x, y))
      × (bounds_bottom_right bounds inset ≡ some (u, v))
      × (b.x1 ≤ x)
      × (x ≤ b.x2)
      × (b.y1 ≤ y)
      × (y ≤ b.y2)
      × (b.x1 ≤ u)
      × (u ≤ b.x2)
      × (b.y1 ≤ v)
      × (v ≤ b.y2)
unfolding bounds_center bounds_bottom_right
bounds_points bounds inset b e hx hy = (
  (b.x1 + b.x2) / 2,
  (b.y1 + b.y2) / 2,
  max b.x1 (b.x2 - inset),
  max b.y1 (b.y2 - inset),
  rw e,
  rw e,
  omega arith,
  omega arith,
  omega arith,
  omega arith,
  omega arith,
  omega arith,
  omega arith,
  omega arith,
)

handle-no_slash : (s : Text) → handle s ≡ true → All (λ c. c ≢ b'/') s
unfolding handle is_handle_char is_digit is_nil
handle-no_slash [] h = tt
handle-no_slash (c ∷ []) h = (ground arith, tt)
handle-no_slash (c ∷ d ∷ []) h = (ground arith, (ground arith, tt))
handle-no_slash (c ∷ d ∷ e ∷ s) h = (ground arith, handle-no_slash (d ∷ e ∷ s) (ground arith))

nil-handle : (s : Text) → s ≡ [] → handle s ≡ false
unfolding handle
nil-handle s e = rw e

-- A name that is used as a file name is the account's own, not empty, not "." or "..", and holds no
-- slash: it names a file in its directory.
pub safe_filename-safe :
    (username name : Text)
    → safe_filename username ≡ some name
    → (name ≡ username)
      × (name ≢ [])
      × (name ≢ codes ".")
      × (name ≢ codes "..")
      × All (λ c. c ≢ b'/') name
unfolding safe_filename
safe_filename-safe username name h =
    let same : name ≡ username = ground arith in
    let accepted : handle username ≡ true = ground arith in
    rw same (
      refl,
      λ e. absurd (ground (arith, nil-handle username e, accepted)),
      λ e. ground (arith, text_eq_iff username (codes ".")),
      λ e. ground (arith, text_eq_iff username (codes "..")),
      handle-no_slash username accepted,
    )

handle-newline : (s : Text) → handle s ≡ true → All (λ c. c ≢ 10) s → handle (s ++ 10 ∷ []) ≡ true
unfolding handle is_nil
handle-newline [] h n = cc
handle-newline (c ∷ []) h n = ground arith
handle-newline (c ∷ d ∷ s) h (p, n) =
    let rest : handle (d ∷ s) ≡ true = ground arith in
    let ih = handle-newline (d ∷ s) rest n in ground (arith, ih, n.0)

not_dots :
    (s : Text)
    → (text_eq (s ++ 10 ∷ []) (codes ".") ≡ false) × (text_eq (s ++ 10 ∷ []) (codes "..") ≡ false)
unfolding text_eq
not_dots [] = (refl, refl)
not_dots (c ∷ []) = ground arith
not_dots (c ∷ d ∷ []) = ground arith
not_dots (c ∷ d ∷ e ∷ s) = ground arith

-- Every name that is accepted and holds no line break is accepted with a line break behind it too.
safe_filename-newline :
    (username : Text)
    → safe_filename username ≡ some username
    → All (λ c. c ≢ 10) username
    → safe_filename (username ++ 10 ∷ []) ≡ some (username ++ 10 ∷ [])
unfolding safe_filename
safe_filename-newline username h n =
    let accepted : handle username ≡ true = ground arith in
    ground (arith, handle-newline username accepted n, not_dots username)
