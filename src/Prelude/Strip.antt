-- ===== src/Prelude/Strip.antt =====
-- `str.strip()`, `str.lstrip()` and `str.rstrip()` with no argument, and `str.isspace` of one code
-- point.
use mathlib.Core.List.{reverse, reverse-append}
use instadroid.Prelude.{
  ℕ, ◌≡◌, refl, ◌⊎◌, inl, inr, Bool-cases, Bool, false, ◌&&◌, ◌||◌, [], ◌∷◌, ◌++◌, leb, ◌==◌,
  if◌then◌else◌, Text,
}

unfoldable pub is_space : ℕ → Bool
is_space c =
    (leb 9 c && leb c 13)
    || (leb 28 c && leb c 32)
    || c == 133
    || c == 160
    || c == 5760
    || (leb 8192 c && leb c 8202)
    || c == 8232
    || c == 8233
    || c == 8239
    || c == 8287
    || c == 12288

unfoldable pub lstrip : Text → Text
lstrip [] = []
lstrip (c ∷ s) = if is_space c then lstrip s else c ∷ s

unfoldable pub rstrip : Text → Text
rstrip s = reverse (lstrip (reverse s))

unfoldable pub strip : Text → Text
unfolding lstrip rstrip is_space
strip s = rstrip (lstrip s)

-- neither blank nor starting with a space
abbrev pub StartsSolid : Text → Type 0
StartsSolid [] = ⊥
StartsSolid (c ∷ s) = is_space c ≡ false

pub lstrip_solid : (s : Text) → StartsSolid s → lstrip s ≡ s
unfolding lstrip
lstrip_solid [] h = absurd h
lstrip_solid (c ∷ s) h = rw h

lstrip-newline : (s : Text) → lstrip (10 ∷ s) ≡ lstrip s
unfolding lstrip is_space
lstrip-newline s = refl

-- a newline put behind a text: skipped if all before it is blank, kept otherwise
lstrip-append-newline :
    (s : Text)
    → ((lstrip s ≡ []) × (lstrip (s ++ 10 ∷ []) ≡ []))
      ⊎ (lstrip (s ++ 10 ∷ []) ≡ lstrip s ++ 10 ∷ [])
unfolding lstrip is_space
lstrip-append-newline [] = inl (refl, refl)
lstrip-append-newline (c ∷ s) = elim (Bool-cases (is_space c)) [
  | inl blank ↦ rw (blank, lstrip) (lstrip-append-newline s)
  | inr solid ↦ inr (rw (solid, lstrip) refl)
]

rstrip-append-newline : (s : Text) → rstrip (s ++ 10 ∷ []) ≡ rstrip s
unfolding rstrip
rstrip-append-newline s = rw (reverse-append s (10 ∷ []), lstrip-newline (reverse s))

pub strip-append-newline : (s : Text) → strip (s ++ 10 ∷ []) ≡ strip s
unfolding strip
strip-append-newline s = elim (lstrip-append-newline s) [
  | inl (e, e') ↦ rw (e, e')
  | inr e ↦ rw e (rstrip-append-newline (lstrip s))
]
