-- ===== src/Pages/Words.antt =====
-- fts_query() of app/feedserver/queries.py scan back as an FTS5 query: what stands between quotes is a
-- word, where two quotes are one that belongs to it, and a star behind the closing quote makes it a prefix.
use instadroid.Prelude.{
  ℕ, zero, suc, ◌≡◌, ◌≢◌, refl, ◌∙◌, ap, inl, inr, Option, none, some, List, [], ◌∷◌, ◌++◌, map,
  arith, ◌==◌, if◌then◌else◌, Bool-cases, Text, append_assoc, append-nil, take, All, All-append,
}
use instadroid.Parsing.Words.{join, space, words, words_from, push_word}
use instadroid.Prelude.Strip.{is_space}
use instadroid.Pages.Query.{
  quote, doubled, no_nul, search_words, quoted, fts_query, max_search_words,
}

data Reader : Type 0 where
  between : Reader
  inside : Text → Reader
  closing : Text → Reader

with_word : Text → Option (List Text) → Option (List Text)
with_word w none = none
with_word w (some ws) = some (w ∷ ws)

scan : Reader → Text → Option (List Text)
unfolding with_word
scan between [] = some []
scan (inside w) [] = none
scan (closing w) [] = none
scan between (c ∷ s) =
    let word = scan (inside []) s in
    let next = scan between s in if c == quote then word else if c == space then next else none
scan (inside w) (c ∷ s) =
    let quoted = scan (closing w) s in
    let longer = scan (inside (w ++ c ∷ [])) s in
    if c == 0 then none else if c == quote then quoted else longer
scan (closing w) (c ∷ s) =
    let longer = scan (inside (w ++ quote ∷ [])) s in
    let next = scan between s in
    if c == quote then longer else if c == b'*' then with_word w next else none

-- the words of a query of quoted prefixes; none for any other text
pub read_query : Text → Option (List Text)
unfolding scan
read_query s = scan between s

abbrev NoNul : Text → Type 0
NoNul = All (λ c. c ≢ 0)

scan-doubled :
    (v w rest : Text)
    → NoNul w
    → scan (inside v) (doubled w ++ (quote ∷ rest)) ≡ scan (closing (v ++ w)) rest
unfolding scan doubled
scan-doubled v [] rest h = rw (append-nil v) refl
scan-doubled v (c ∷ w) rest (h, hs) = elim (Bool-cases (c == quote)) [
  | inl e ↦ ground (arith, scan-doubled (v ++ quote ∷ []) w rest hs, append_assoc v (quote ∷ []) w)
  | inr e ↦ ground (arith, scan-doubled (v ++ c ∷ []) w rest hs, append_assoc v (c ∷ []) w)
]

scan-quoted :
    (w rest : Text) → NoNul w → scan between (quoted w ++ rest) ≡ with_word w (scan between rest)
unfolding quoted scan
scan-quoted w rest h =
    rw (append_assoc (doubled w) (quote ∷ b'*' ∷ []) rest) (scan-doubled [] w (b'*' ∷ rest) h)

scan-join : (ws : List Text) → All NoNul ws → scan between (join (map quoted ws)) ≡ some ws
unfolding join scan
scan-join [] h = refl
scan-join (w ∷ []) (h, _) = rw (← append-nil (quoted w)) (scan-quoted w [] h)
scan-join (w ∷ v ∷ ws) (h, hs) =
    scan-quoted w (space ∷ join (map quoted (v ∷ ws))) h ∙ ap (with_word w) (scan-join (v ∷ ws) hs)

push_word-NoNul : (w : Text) (ws : List Text) → NoNul w → All NoNul ws → All NoNul (push_word w ws)
push_word-NoNul [] ws h hs = hs
push_word-NoNul (c ∷ w) ws h hs = (h, hs)

words_from-NoNul : (cur s : Text) → NoNul cur → NoNul s → All NoNul (words_from cur s)
unfolding words_from
words_from-NoNul cur [] h k = push_word-NoNul cur [] h tt
words_from-NoNul cur (c ∷ s) h (k, ks) = elim (Bool-cases (is_space c)) [
  | inl blank ↦ rw blank (push_word-NoNul cur _ h (words_from-NoNul [] s tt ks))
  | inr solid ↦
      rw solid (words_from-NoNul (cur ++ c ∷ []) s (All-append _ cur (c ∷ []) h (k, tt)) ks)
]

no_nul-NoNul : (q : Text) → NoNul (no_nul q)
unfolding no_nul
no_nul-NoNul [] = tt
no_nul-NoNul (c ∷ q) = (ground arith, no_nul-NoNul q)

take-NoNul : (n : ℕ) (ws : List Text) → All NoNul ws → All NoNul (take n ws)
take-NoNul zero ws h = tt
take-NoNul (suc n) [] h = tt
take-NoNul (suc n) (w ∷ ws) (h, hs) = (h, take-NoNul n ws hs)

-- Whatever was typed, FTS5 reads the query as quoted prefixes, which are the text's words in their order,
-- the first MAX_SEARCH_WORDS of them, where a NUL counts as a space.
pub read_query-fts_query :
    (q : Text) → read_query (fts_query q) ≡ some (take max_search_words (words (no_nul q)))
unfolding read_query fts_query search_words words
read_query-fts_query q =
    scan-join _ (take-NoNul max_search_words _ (words_from-NoNul [] (no_nul q) tt (no_nul-NoNul q)))
