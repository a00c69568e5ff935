-- ===== src/Parsing/Words.antt =====
-- `str.split()`, `" ".join(...)`, `rstrip("…")`, `split("\n", 1)[0]` and `split(",")[0]` as the keys of
-- app/instadroid/parsing.py use them.
use mathlib.Core.List.{reverse}
use instadroid.Prelude.{ℕ, List, [], ◌∷◌, ◌++◌, ◌==◌, if◌then◌else◌, Text}
use instadroid.Prelude.Strip.{is_space}

abbrev pub ellipsis : ℕ
ellipsis = 0x2026

abbrev pub newline : ℕ
newline = 10

abbrev pub comma : ℕ
comma = b','

abbrev pub space : ℕ
space = 32

-- a word that ended, unless it is empty
abbrev pub push_word : Text → List Text → List Text
push_word [] ws = ws
push_word (c ∷ w) ws = (c ∷ w) ∷ ws

-- the words of `s` behind a word begun with `cur`
unfoldable pub words_from : Text → Text → List Text
words_from cur [] = push_word cur []
words_from cur (c ∷ s) =
    let next = words_from [] s in
    let longer = words_from (cur ++ c ∷ []) s in if is_space c then push_word cur next else longer

-- s.split()
unfoldable pub words : Text → List Text
words s = words_from [] s

-- " ".join(ws)
unfoldable pub join : List Text → Text
join [] = []
join (w ∷ []) = w
join (w ∷ v ∷ ws) = w ++ space ∷ join (v ∷ ws)

-- s.lstrip("…"), to be read from the end
unfoldable pub drop_ellipses : Text → Text
drop_ellipses [] = []
drop_ellipses (c ∷ s) = if c == ellipsis then drop_ellipses s else c ∷ s

-- s.rstrip("…")
unfoldable pub rstrip_ellipsis : Text → Text
rstrip_ellipsis s = reverse (drop_ellipses (reverse s))

-- s.split(sep, 1)[0], for one character
unfoldable pub before : ℕ → Text → Text
before sep [] = []
before sep (c ∷ s) = if c == sep then [] else c ∷ before sep s
