-- ===== src/Capture/Permalink.antt =====
-- The permalink pattern of app/igprofiles/v424/selectors.py, _code_of() and permalink_code() of
-- app/instadroid/capture.py, and the URL that fetch_permalink() returns. `wide_word` tells Unicode's word
-- characters beyond ASCII.
use instadroid.Prelude.{
  ℕ, ◌≡◌, refl, Bool, true, ◌&&◌, ◌||◌, Option, none, some, List, [], ◌∷◌, ◌++◌, arith, leb, ◌==◌,
  if◌then◌else◌, Text, codes, All, inl, inr, ◌⊎◌,
}

-- the text after a prefix
unfoldable pub drop_prefix : Text → Text → Option Text
drop_prefix [] s = some s
drop_prefix (c ∷ prefix) [] = none
drop_prefix (c ∷ prefix) (d ∷ s) = let rest = drop_prefix prefix s in if c == d then rest else none

abbrev pub host : Text
host = codes "https://www.instagram.com/"

-- `p|reel|reels|tv`, each with the slash behind it
abbrev pub link_types : List Text
link_types = codes "p" ∷ codes "reel" ∷ codes "reels" ∷ codes "tv" ∷ []

unfoldable pub link_type : List Text → Text → Option (Text × Text)
link_type [] s = none
link_type (t ∷ ts) s = elim (drop_prefix (t ++ codes "/") s) [
  | none ↦ link_type ts s
  | some rest ↦ some (t, rest)
]

module _ (wide_word : ℕ → Bool) where
  -- [\w-]
  unfoldable pub is_code_char : ℕ → Bool
  is_code_char c =
      (leb b'a' c && leb c b'z')
      || ((leb b'A' c && leb c b'Z')
          || ((leb b'0' c && leb c b'9')
              || (c == b'_' || (c == b'-' || (leb 128 c && wide_word c)))))

  -- the longest run of such characters
  unfoldable pub leading_code : Text → Text
  leading_code [] = []
  leading_code (c ∷ s) = if is_code_char c then c ∷ leading_code s else []

  unfoldable pub code_part : Text × Text → Option (Text × Text)
  code_part (t, rest) = elim (leading_code rest) [ [] ↦ none | c ∷ code ↦ some (t, c ∷ code) ]

  -- SELECTORS["permalink"].match(): the type and the code
  unfoldable pub match_permalink : Text → Option (Text × Text)
  unfolding code_part
  match_permalink s = elim (drop_prefix host s) [
    | none ↦ none
    | some rest ↦ elim (link_type link_types rest) [ none ↦ none | some tr ↦ code_part tr ]
  ]

  -- _code_of()
  unfoldable pub code_of : Text → Text
  code_of s = elim (match_permalink s) [ none ↦ [] | some (t, code) ↦ code ]

  unfoldable pub permalink_code : Text → Text
  permalink_code url = elim (code_of url) [ [] ↦ url | c ∷ code ↦ c ∷ code ]

-- the URL that fetch_permalink() makes of a match
unfoldable pub permalink_url : Text × Text → Text
permalink_url (t, code) = host ++ (t ++ (codes "/" ++ (code ++ codes "/")))

drop_prefix-append : (prefix s : Text) → drop_prefix prefix (prefix ++ s) ≡ some s
unfolding drop_prefix
drop_prefix-append [] s = refl
drop_prefix-append (c ∷ prefix) s = ground (arith, drop_prefix-append prefix s)

module _ (wide_word : ℕ → Bool) where
  leading_code-append :
      (code : Text)
      → All (λ c. is_code_char wide_word c ≡ true) code
      → leading_code wide_word (code ++ codes "/") ≡ code
  unfolding leading_code is_code_char
  leading_code-append [] h = refl
  leading_code-append (c ∷ code) (p, h) = rw (p, leading_code-append code h) refl

  code_part-append :
      (t code : Text) (c : ℕ)
      → All (λ d. is_code_char wide_word d ≡ true) (c ∷ code)
      → code_part wide_word (t, c ∷ (code ++ codes "/")) ≡ some (t, c ∷ code)
  unfolding code_part
  code_part-append t code c h = ground (arith, leading_code-append (c ∷ code) h)

  -- Reading the URL that fetch_permalink() makes of a link's type and code gives both back, for each of the
  -- four types and every code of at least one character that a code may have.
  pub match_permalink-permalink_url :
      (t code : Text) (c : ℕ)
      → (t ≡ codes "p") ⊎ ((t ≡ codes "reel") ⊎ ((t ≡ codes "reels") ⊎ (t ≡ codes "tv")))
      → All (λ d. is_code_char wide_word d ≡ true) (c ∷ code)
      → match_permalink wide_word (permalink_url (t, c ∷ code)) ≡ some (t, c ∷ code)
  unfolding match_permalink permalink_url link_type drop_prefix
  match_permalink-permalink_url t code c (inl e) h = rw e (code_part-append (codes "p") code c h)
  match_permalink-permalink_url t code c (inr (inl e)) h =
      rw e (code_part-append (codes "reel") code c h)
  match_permalink-permalink_url t code c (inr (inr (inl e))) h =
      rw e (code_part-append (codes "reels") code c h)
  match_permalink-permalink_url t code c (inr (inr (inr e))) h =
      rw e (code_part-append (codes "tv") code c h)
