-- ===== src/Parsing/Keys.antt =====
-- What the keys of app/instadroid/parsing.py depend on, and what they do not.
use mathlib.Core.List.{reverse-append}
use instadroid.Prelude.{
  ℕ, zero, suc, ◌≤◌, ◌≡◌, refl, ap, sym, ◌∙◌, false, List, [], ◌∷◌, ◌++◌, arith, Text, append_assoc,
  append-nil, All, length, take, some, Bool-cases, inl, inr,
}
use instadroid.Prelude.Strip.{is_space}
use instadroid.Parsing.Words.{
  words, words_from, push_word, join, rstrip_ellipsis, drop_ellipses, ellipsis, space,
}
use instadroid.Parsing.Identity.{caption_key, flat_caption, or_empty}

rstrip_ellipsis-append : (s : Text) → rstrip_ellipsis (s ++ ellipsis ∷ []) ≡ rstrip_ellipsis s
unfolding rstrip_ellipsis drop_ellipses
rstrip_ellipsis-append s = rw (reverse-append s (ellipsis ∷ []))

-- A truncation marker at the end of a caption changes neither the key that the post's hash is made of
-- nor the flat form that captions are compared by.
caption_key-truncated :
    (caption : Text)
    → (caption_key (caption ++ ellipsis ∷ []) ≡ caption_key caption)
      × (flat_caption (some (caption ++ ellipsis ∷ [])) ≡ flat_caption (some caption))
unfolding caption_key flat_caption or_empty
caption_key-truncated caption = (rw rstrip_ellipsis-append refl, rw rstrip_ellipsis-append refl)

length-take-le {ℓ} : {A : Type ℓ} (n : ℕ) (xs : List A) → length (take n xs) ≤ n
length-take-le zero xs = omega arith
length-take-le (suc n) [] = omega arith
length-take-le (suc n) (x ∷ xs) = omega (arith, length-take-le n xs)

-- A word: not empty, and with no white space in it.
abbrev pub IsSolid : Text → Type 0
IsSolid s = All (λ c. is_space c ≡ false) s

abbrev pub IsWord : Text → Type 0
IsWord [] = ⊥
IsWord (c ∷ w) = IsSolid (c ∷ w)

words_from-solid : (cur w s : Text) → IsSolid w → words_from cur (w ++ s) ≡ words_from (cur ++ w) s
unfolding words_from
words_from-solid cur [] s h = rw append-nil
words_from-solid cur (c ∷ w) s (p, h) = rw p (
    words_from-solid (cur ++ c ∷ []) w s h ∙ ap (λ l. words_from l s) (append_assoc cur (c ∷ []) w))

words_from-space : (c : ℕ) (w s : Text) → words_from (c ∷ w) (space ∷ s) ≡ (c ∷ w) ∷ words s
unfolding words_from words is_space
words_from-space c w s = refl

-- Splitting what was joined gives the words back, so flattening the white space of a caption a second
-- time changes nothing.
pub words-join : (ws : List Text) → All IsWord ws → words (join ws) ≡ ws
unfolding words join words_from
words-join [] h = refl
words-join ((c ∷ w) ∷ []) (p, h) =
    ap (words_from []) (sym (append-nil (c ∷ w))) ∙ words_from-solid [] (c ∷ w) [] p
words-join ((c ∷ w) ∷ v ∷ ws) (p, h) =
    words_from-solid [] (c ∷ w) (space ∷ join (v ∷ ws)) p
    ∙ words_from-space c w (join (v ∷ ws))
    ∙ ap (λ rest. (c ∷ w) ∷ rest) (words-join (v ∷ ws) h)
words-join ([] ∷ ws) (p, h) = absurd p

IsSolid-append : (w : Text) (c : ℕ) → IsSolid w → is_space c ≡ false → IsSolid (w ++ c ∷ [])
IsSolid-append [] c h p = (p, tt)
IsSolid-append (d ∷ w) c (q, h) p = (q, IsSolid-append w c h p)

push_word-IsWord :
    (w : Text) (ws : List Text) → IsSolid w → All IsWord ws → All IsWord (push_word w ws)
push_word-IsWord [] ws h k = k
push_word-IsWord (c ∷ w) ws h k = (h, k)

words_from-IsWord : (cur s : Text) → IsSolid cur → All IsWord (words_from cur s)
unfolding words_from
words_from-IsWord cur [] h = push_word-IsWord cur [] h tt
words_from-IsWord cur (c ∷ s) h = elim (Bool-cases (is_space c)) [
  | inl blank ↦ rw blank (push_word-IsWord cur _ h (words_from-IsWord [] s tt))
  | inr solid ↦ rw solid (words_from-IsWord (cur ++ c ∷ []) s (IsSolid-append cur c h solid))
]

-- Flattening the white space of a text twice is flattening it once.
pub join-words_idem : (s : Text) → join (words (join (words s))) ≡ join (words s)
join-words_idem s = ap join (words-join (words s) (unfold words in words_from-IsWord [] s tt))
