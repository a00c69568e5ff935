-- ===== src/Parsing/Weak.antt =====
-- `_WEAK_CAPTION` of app/instadroid/parsing.py, `^(Photo|Video|Reel|Image|Carousel)\b.*\bby\b` with case
-- ignored. Which code points beyond ASCII are word characters is Unicode's table, a parameter.
use instadroid.Prelude.{
  ℕ, ◌+◌, Bool, true, false, not, ◌&&◌, ◌||◌, Option, none, some, [], ◌∷◌, leb, ltb, ◌==◌,
  if◌then◌else◌, Text, codes,
}

-- a code point as a case-blind match sees it: dotted and dotless i, and the long s, fold too
unfoldable pub fold : ℕ → ℕ
fold c =
    if leb b'A' c && leb c b'Z'
    then c + 32
    else if c == 0x130 || c == 0x131
    then b'i'
    else if c == 0x17f
    then b's'
    else c

module _ (wide_word : ℕ → Bool) where
  unfoldable pub is_word : ℕ → Bool
  is_word c =
      if ltb c 128
      then (leb b'0' c && leb c b'9')
        || (leb b'A' c && leb c b'Z')
        || c == b'_'
        || (leb b'a' c && leb c b'z')
      else wide_word c

  -- the end of a word lies before this text
  unfoldable pub ends_word : Text → Bool
  ends_word [] = true
  ends_word (c ∷ s) = not (is_word c)

  -- "by" as a word here, its first letter read
  by_here : ℕ → Text → Bool
  by_here c [] = false
  by_here c (d ∷ s) = fold c == b'b' && (fold d == b'y' && ends_word s)

  -- `.*\bby\b`: the word "by" on this line; `inside` tells whether a word character lies just before
  unfoldable pub by_from : Bool → Text → Bool
  unfolding by_here
  by_from inside [] = false
  by_from inside (c ∷ s) = (not inside && by_here c s) || (not (c == 10) && by_from (is_word c) s)

  -- `word` case-blind at the start: the text behind it
  unfoldable pub after_prefix : Text → Text → Option Text
  after_prefix [] s = some s
  after_prefix (w ∷ word) [] = none
  after_prefix (w ∷ word) (c ∷ s) = if fold c == w then after_prefix word s else none

  describes : Text → Text → Bool
  describes word s = elim (after_prefix word s) [
    | none ↦ false
    | some rest ↦ ends_word rest && by_from true rest
  ]

  unfoldable pub matches_weak : Text → Bool
  unfolding describes
  matches_weak s =
      describes (codes "photo") s
      || describes (codes "video") s
      || describes (codes "reel") s
      || describes (codes "image") s
      || describes (codes "carousel") s

  -- is_weak_caption() on a text
  unfoldable pub is_weak_caption : Text → Bool
  is_weak_caption [] = true
  is_weak_caption (c ∷ s) = matches_weak (c ∷ s)

weak_tests : Unit {0}
unfolding is_weak_caption matches_weak after_prefix by_from ends_word is_word fold
weak_tests = tt
