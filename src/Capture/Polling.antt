-- ===== src/Capture/Polling.antt =====
-- What _poll_clipboard() of app/instadroid/capture.py gives, and the code of the link that it read.
use instadroid.Prelude.{
  ℕ, ◌≡◌, ◌≢◌, ◌⊎◌, inl, inr, refl, ap, Bool, true, false, some, List, [], ◌∷◌, ◌++◌, arith, Text,
  codes, text_eq, text_eq_iff, All, Bool-cases, Option-cases,
}
use mathlib.Core.Path.{subst}
use instadroid.Feed.Cards.{is_empty}
use instadroid.Capture.Permalink.{
  match_permalink, code_of, permalink_code, permalink_url, link_type, link_types, leading_code,
  is_code_char, code_part, drop_prefix, host, match_permalink-permalink_url,
}
use instadroid.Capture.Copying.{Read, heard, Clip, Sheet, Polled, poll_clipboard, is_bare, tap_copy}

abbrev IsLinkType : Text → Type 0
IsLinkType t = (t ≡ codes "p") ⊎ ((t ≡ codes "reel") ⊎ ((t ≡ codes "reels") ⊎ (t ≡ codes "tv")))

link_type_sound : (s t rest : Text) → link_type link_types s ≡ some (t, rest) → IsLinkType t
unfolding link_type
link_type_sound s t rest h = elim (Option-cases (drop_prefix (codes "p" ++ codes "/") s)) [
  | inr (r, e) ↦ inl (ground arith)
  | inl e ↦ elim (Option-cases (drop_prefix (codes "reel" ++ codes "/") s)) [
    | inr (r, e') ↦ inr (inl (ground arith))
    | inl e' ↦ elim (Option-cases (drop_prefix (codes "reels" ++ codes "/") s)) [
      | inr (r, e'') ↦ inr (inr (inl (ground arith)))
      | inl e'' ↦ elim (Option-cases (drop_prefix (codes "tv" ++ codes "/") s)) [
        | inr (r, e3) ↦ inr (inr (inr (ground arith)))
        | inl e3 ↦ ground arith
      ]
    ]
  ]
]

module _ (wide_word : ℕ → Bool) where
  leading_code_sound :
      (s : Text) → All (λ d. is_code_char wide_word d ≡ true) (leading_code wide_word s)
  unfolding leading_code
  leading_code_sound [] = tt
  leading_code_sound (c ∷ s) = elim (Bool-cases (is_code_char wide_word c)) [
    | inl e ↦ rw e (e, leading_code_sound s)
    | inr e ↦ rw e tt
  ]

  code_part_sound :
      (t s : Text) (m : Text × Text)
      → code_part wide_word (t, s) ≡ some m
      → (c : ℕ) × (code : Text) × (m ≡ (t, c ∷ code))
        × All (λ d. is_code_char wide_word d ≡ true) (c ∷ code)
  unfolding code_part
  code_part_sound t s m h = split (leading_code wide_word s) refl
    where
      split :
          (code : Text)
          → leading_code wide_word s ≡ code
          → (c : ℕ) × (code : Text) × (m ≡ (t, c ∷ code))
            × All (λ d. is_code_char wide_word d ≡ true) (c ∷ code)
      split [] e = ground arith
      split (c ∷ code) e = (
        c,
        code,
        ground arith,
        subst (All (λ d. is_code_char wide_word d ≡ true)) e (leading_code_sound s),
      )

  -- a match, taken apart
  match_permalink_sound :
      (s : Text) (m : Text × Text)
      → match_permalink wide_word s ≡ some m
      → (c : ℕ) × (code : Text) × (m.1 ≡ c ∷ code)
        × IsLinkType m.0
        × All (λ d. is_code_char wide_word d ≡ true) (c ∷ code)
  unfolding match_permalink
  match_permalink_sound s m h = elim (Option-cases (drop_prefix host s)) [
    | inl e ↦ ground arith
    | inr (rest, e) ↦ elim (Option-cases (link_type link_types rest)) [
      | inl e' ↦ ground arith
      | inr (tr, e') ↦
          (let (c, code, em, w) = code_part_sound tr.0 tr.1 m (ground arith) in
            (c, code, ap (λ p. p.1) em, rw em (link_type_sound rest tr.0 tr.1 e'), w))
    ]
  ]

-- What polling from `last` on gives: a link that differs from it or came off an emptied clipboard, or
-- none, and then at most a reading that still carried the last one.
pub data Gives (wide_word : ℕ → Bool) (cleared : Bool) (last again : Text) (p : Polled)
    : Type 0 where
  copied :
      code_of wide_word p.url ≡ p.code
      → is_empty p.code ≡ false
      → (cleared ≡ true) ⊎ (p.code ≢ last)
      → Gives wide_word cleared last again p
  lagged :
      p.url ≡ []
      → p.code ≡ last
      → (p.again ≡ again) ⊎ ((code_of wide_word p.again ≡ last) × (cleared ≡ false))
      → Gives wide_word cleared last again p

module _ (wide_word : ℕ → Bool) where
  Gives-read :
      (cleared : Bool) (last again read : Text) (p : Polled)
      → code_of wide_word read ≡ last
      → cleared ≡ false
      → Gives wide_word cleared last read p
      → Gives wide_word cleared last again p
  Gives-read cleared last again read p e k (copied a b d) = copied a b d
  Gives-read cleared last again read p e k (lagged a b (inl d)) = lagged a b (inr (rw (d) e, k))
  Gives-read cleared last again read p e k (lagged a b (inr d)) = lagged a b (inr d)

  poll_clipboard-Gives :
      (cleared : Bool) (reads : List Read) (last again : Text)
      → Gives wide_word cleared last again (poll_clipboard wide_word cleared reads last again)
  unfolding poll_clipboard
  poll_clipboard-Gives cleared [] last again = lagged refl refl (inl refl)
  poll_clipboard-Gives cleared (r ∷ reads) last again =
      let ih = poll_clipboard-Gives cleared reads last in
      elim (Bool-cases (is_empty (code_of wide_word (heard r)))) [
        | inl e ↦ rw e (ih again)
        | inr e ↦ elim (Bool-cases cleared) [
          | inl k ↦ rw (e, k) (copied refl e (inl refl))
          | inr k ↦ elim (Bool-cases (text_eq (code_of wide_word (heard r)) last)) [
            | inl same ↦
                rw (e, k, same)
                  (Gives-read false last again (heard r) _
                    ((text_eq_iff (code_of wide_word (heard r)) last).0 same) refl
                    (rw (← k) (ih (heard r))))
            | inr new ↦
                rw (e, k, new)
                  (copied refl e
                    (inr (λ q. cc ((text_eq_iff (code_of wide_word (heard r)) last).1 q))))
          ]
        ]
      ]

  code_of-match :
      (s : Text) (m : Text × Text)
      → match_permalink wide_word s ≡ some m
      → code_of wide_word s ≡ m.1
  unfolding code_of
  code_of-match s m h = rw (h, code_of) refl

  permalink_code-code :
      (u : Text) (c : ℕ) (code : Text)
      → code_of wide_word u ≡ c ∷ code
      → permalink_code wide_word u ≡ c ∷ code
  unfolding permalink_code
  permalink_code-code u c code h = rw (h, permalink_code) refl

  -- the URL made of a link has the link's code
  pub permalink_code-permalink_url :
      (s : Text) (m : Text × Text)
      → match_permalink wide_word s ≡ some m
      → permalink_code wide_word (permalink_url m) ≡ code_of wide_word s
  permalink_code-permalink_url s (t, code) h =
      let (c, code', e, w, chars) = match_permalink_sound wide_word s (t, code) h in
      rw (code_of-match s (t, code) h, e)
        (permalink_code-code _ c code' (
          code_of-match _ (t, c ∷ code')
            (match_permalink-permalink_url wide_word t code' c w chars)))

  pub code_of-nil : code_of wide_word [] ≡ []
  unfolding code_of match_permalink drop_prefix
  code_of-nil = refl

  Gives-bare :
      (cleared : Bool) (last again : Text) (p : Polled)
      → is_bare p ≡ true
      → Gives wide_word cleared last again p
      → p.code ≡ last
  unfolding is_bare is_empty
  Gives-bare cleared last again p h (copied a b d) = bare p.url refl
    where
      bare : (u : Text) → p.url ≡ u → p.code ≡ last
      bare [] e = ground (arith, code_of-nil)
      bare (x ∷ u) e = ground arith
  Gives-bare cleared last again p h (lagged a b d) = b

  pub tap_copy-Gives :
      (cleared : Bool) (s : Sheet) (c : Clip)
      → Gives wide_word cleared c.last_code [] (tap_copy wide_word cleared s c).0
  unfolding tap_copy
  tap_copy-Gives cleared s c =
      let once : Polled = poll_clipboard wide_word cleared s.first c.last_code [] in
      let first : Gives wide_word cleared c.last_code [] once =
        poll_clipboard-Gives cleared s.first c.last_code [] in
      elim (Bool-cases (is_bare once)) [
        | inl e ↦
            rw (e, Gives-bare cleared c.last_code [] once e first)
              (poll_clipboard-Gives cleared s.second c.last_code [])
        | inr e ↦ rw e first
      ]
