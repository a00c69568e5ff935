-- ===== src/Pages/Matching.antt =====
-- The caption search of a posts feed (`q` of PostFilter in app/feedserver/queries.py).
use instadroid.Prelude.{
  ◌≡◌, ◌≢◌, refl, ap, All, ◌∙◌, Bool, true, false, ◌||◌, Option, none, some, [], ◌∷◌, ◌++◌, map,
  arith, Text, starts_with,
}
use instadroid.Feed.Cards.{is_empty}
use instadroid.Parsing.Words.{before}
use instadroid.Pages.Filters.{
  run, exact, wilds, wild_match, some_tail, fold_case, escaped, like_pattern, like, percent,
}

-- `part in text`
pub is_within : Text → Text → Bool
is_within part [] = starts_with [] part
is_within part (c ∷ s) = starts_with (c ∷ s) part || is_within part s

wilds-escaped : (q p : Text) → wilds false (escaped q ++ p) ≡ map exact q ++ wilds false p
unfolding wilds escaped
wilds-escaped [] p = refl
wilds-escaped (c ∷ q) p = ground (arith, wilds-escaped q p)

-- a run at the end takes whatever is left
run_matches : (s : Text) → wild_match (run ∷ []) s ≡ true
unfolding wild_match some_tail is_empty
run_matches [] = refl
run_matches (c ∷ s) = run_matches s

starts_with_nil : (s : Text) → true ≡ starts_with (map fold_case s) []
unfolding starts_with
starts_with_nil [] = refl
starts_with_nil (c ∷ s) = refl

exact_matches :
    (q s : Text)
    → wild_match (map exact q ++ (run ∷ [])) s ≡ starts_with (map fold_case s) (map fold_case q)
unfolding wild_match starts_with
exact_matches [] s = run_matches s ∙ starts_with_nil s
exact_matches (x ∷ q) [] = refl
exact_matches (x ∷ q) (c ∷ s) = ground (arith, exact_matches q s)

some_tail_exact :
    (q s : Text)
    → some_tail (wild_match (map exact q ++ (run ∷ []))) s
      ≡ is_within (map fold_case q) (map fold_case s)
unfolding some_tail is_within
some_tail_exact q [] = exact_matches q []
some_tail_exact q (c ∷ s) = ground (arith, exact_matches q (c ∷ s), some_tail_exact q s)

like-exact :
    (q s : Text)
    → wild_match (wilds false (like_pattern q)) s ≡ is_within (map fold_case q) (map fold_case s)
unfolding like_pattern wilds wild_match
like-exact q s = rw (wilds-escaped q (percent ∷ [])) (some_tail_exact q s)

-- a NUL in the pattern would end it
before-escaped :
    (q p : Text) → All (λ c. c ≢ 0) q → before 0 (escaped q ++ p) ≡ escaped q ++ before 0 p
unfolding before escaped
before-escaped [] p h = refl
before-escaped (c ∷ q) p (n, h) = ground (arith, n, before-escaped q p h)

before-like_pattern : (q : Text) → All (λ c. c ≢ 0) q → before 0 (like_pattern q) ≡ like_pattern q
unfolding like_pattern before
before-like_pattern q h = ap (◌∷◌ percent) (before-escaped q (percent ∷ []) h)

-- Let a search text have no NUL. A caption, read up to its first NUL, is like the pattern made of the search
-- text exactly if the text stands in it, where the ASCII letters of both are taken in lower case: no
-- character of the search is a wildcard. A missing caption is not.
pub like-like_pattern :
    (q : Text) (caption : Option Text)
    → All (λ c. c ≢ 0) q
    → like (like_pattern q) caption ≡ elim caption [
      | none ↦ false
      | some s ↦ is_within (map fold_case q) (map fold_case (before 0 s))
    ]
unfolding like
like-like_pattern q none h = refl
like-like_pattern q (some s) h = rw (before-like_pattern q h) (like-exact q (before 0 s))
