-- ===== src/Pages/Query.antt =====
-- limit() and fts_query() of app/feedserver/queries.py.
use instadroid.Prelude.{ℕ, min, max, List, [], ◌∷◌, ◌++◌, map, ◌==◌, if◌then◌else◌, Text, take}
use instadroid.Parsing.Words.{words, join, space}

abbrev pub max_limit : ℕ
max_limit = 500

-- a request below zero counts as zero
unfoldable pub limit : ℕ → ℕ
limit page_size = max 1 (min page_size max_limit)

abbrev pub max_search_words : ℕ
max_search_words = 32

abbrev pub quote : ℕ
quote = b'"'

-- word.replace('"', '""')
unfoldable pub doubled : Text → Text
doubled [] = []
doubled (c ∷ s) = if c == quote then quote ∷ quote ∷ doubled s else c ∷ doubled s

-- q.replace("\x00", " ")
unfoldable pub no_nul : Text → Text
no_nul q = map (λ c. if c == 0 then space else c) q

unfoldable pub search_words : Text → List Text
search_words q = take max_search_words (words (no_nul q))

unfoldable pub quoted : Text → Text
quoted w = quote ∷ (doubled w ++ (quote ∷ b'*' ∷ []))

unfoldable pub fts_query : Text → Text
fts_query q = join (map quoted (search_words q))
