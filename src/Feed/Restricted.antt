-- ===== src/Feed/Restricted.antt =====
-- What restriction_text() of app/instadroid/parsing.py finds on a screen.
use mathlib.Core.List.{Memᴰ}
use instadroid.Prelude.{
  ap, Option, false, ◌≡◌, ◌≢◌, refl, sym, ◌⊎◌, inl, inr, true, none, some, List, [], ◌∷◌, ◌++◌,
  arith, Text, All, All-mem, starts_with, starts_with_head, Bool-cases, Option-cases,
}
use instadroid.Parsing.Words.{words, join, space}
use instadroid.Feed.Cards.{Node, is_empty}
use instadroid.Feed.Limits.{
  first_match, or_next, folded, wanted_texts, node_match, nodes_match, restriction_text,
}

starts_with_self : (s : Text) → starts_with s s ≡ true
unfolding starts_with
starts_with_self [] = refl
starts_with_self (c ∷ s) = ground (arith, starts_with_self s)

starts_with-append : (p s t : Text) → starts_with s t ≡ true → starts_with (p ++ s) (p ++ t) ≡ true
unfolding starts_with
starts_with-append [] s t h = h
starts_with-append (c ∷ p) s t h = ground (arith, starts_with-append p s t h)

-- a text begins with its first words
starts_with-join : (ws more : List Text) → starts_with (join (ws ++ more)) (join ws) ≡ true
unfolding starts_with join
starts_with-join [] more = refl
starts_with-join (w ∷ []) [] = starts_with_self w
starts_with-join (w ∷ []) (v ∷ more) = starts_with_head w (space ∷ join (v ∷ more))
starts_with-join (w ∷ v ∷ ws) more =
    starts_with-append w (space ∷ join (v ∷ (ws ++ more))) (space ∷ join (v ∷ ws))
      (ground (arith, starts_with-join (v ∷ ws) more))

or_next-some :
    (o next : Option Text) (t : Text) → or_next o next ≡ some t → (o ≡ some t) ⊎ (next ≡ some t)
unfolding or_next
or_next-some none next t h = inr h
or_next-some (some u) next t h = elim (Bool-cases (is_empty u)) [
  | inl e ↦ inr (ground (arith, h, e))
  | inr n ↦ inl (ground (arith, h, n))
]

other : (u t : Text) → is_empty t ≡ false → is_empty u ≡ true → some u ≢ some t
other u t n e k = let same : u ≡ t = cc in ground (arith, ap is_empty same, n, e)

-- neither is a match
or_next-none :
    (o next : Option Text)
    → or_next o next ≡ none
    → (next ≡ none) × ((t : Text) → is_empty t ≡ false → o ≢ some t)
unfolding or_next
or_next-none none next h = (h, λ t n e. cc)
or_next-none (some u) next h = elim (Bool-cases (is_empty u)) [
  | inl e ↦ (ground (arith, h, e), λ t n k. other u t n e k)
  | inr n ↦ ground (arith, h, n)
]

module _ (casefold : Text → Text) where
  -- a node's text or description begins with a text, but for case and spacing
  abbrev pub Begins : Node → Text → Type 0
  Begins n t =
      (starts_with (folded casefold n.text) (folded casefold t) ≡ true)
      ⊎ (starts_with (folded casefold n.desc) (folded casefold t) ≡ true)

  -- its words are those of the text, and more
  abbrev pub Opens : Node → Text → List Text → Type 0
  Opens n t more =
      (words (casefold n.text) ≡ words (casefold t) ++ more)
      ⊎ (words (casefold n.desc) ≡ words (casefold t) ++ more)

  folded-starts :
      (shown t : Text) (more : List Text)
      → words (casefold shown) ≡ words (casefold t) ++ more
      → starts_with (folded casefold shown) (folded casefold t) ≡ true
  unfolding folded
  folded-starts shown t more e = rw e (starts_with-join (words (casefold t)) more)

  Opens-Begins : (n : Node) (t : Text) (more : List Text) → Opens n t more → Begins n t
  Opens-Begins n t more (inl e) = inl (folded-starts n.text t more e)
  Opens-Begins n t more (inr e) = inr (folded-starts n.desc t more e)

  first_match-some :
      (shown t : Text) (texts : List Text)
      → Memᴰ t texts
      → starts_with shown (folded casefold t) ≡ true
      → first_match shown (wanted_texts casefold texts) ≢ none
  unfolding first_match wanted_texts
  first_match-some shown t [] m h k = elim m [ ]
  first_match-some shown t (u ∷ texts) (Memᴰ.head e) h k =
      let begun : starts_with shown (folded casefold u) ≡ true = rw (sym e) h in ground arith
  first_match-some shown t (u ∷ texts) (Memᴰ.tail m) h k =
      ground (arith, first_match-some shown t texts m h)

  first_match-Memᴰ :
      (shown t : Text) (texts : List Text)
      → first_match shown (wanted_texts casefold texts) ≡ some t
      → Memᴰ t texts × (starts_with shown (folded casefold t) ≡ true)
  unfolding first_match wanted_texts
  first_match-Memᴰ shown t [] h = cc
  first_match-Memᴰ shown t (u ∷ texts) h =
      elim (Bool-cases (starts_with shown (folded casefold u))) [
        | inl e ↦ (let same : u ≡ t = ground arith in (Memᴰ.head (sym same), rw (sym same) e))
        | inr e ↦ (let (m, k) = first_match-Memᴰ shown t texts (ground arith) in (Memᴰ.tail m, k))
      ]

  -- a text of the list that a node on screen begins with
  abbrev pub IsShown : List Text → List Node → Text → Type 0
  IsShown texts nodes t = Memᴰ t texts × (m : Node) × Memᴰ m nodes × Begins m t

  node_match-Begins :
      (texts : List Text) (n : Node) (t : Text)
      → node_match casefold (wanted_texts casefold texts) n ≡ some t
      → Memᴰ t texts × Begins n t
  unfolding node_match
  node_match-Begins texts n t h = elim (or_next-some _ _ t h) [
    | inl e ↦ (let (m, k) = first_match-Memᴰ (folded casefold n.text) t texts e in (m, inl k))
    | inr e ↦ (let (m, k) = first_match-Memᴰ (folded casefold n.desc) t texts e in (m, inr k))
  ]

  restriction_text-IsShown :
      (texts : List Text) (nodes : List Node) (t : Text)
      → restriction_text casefold texts nodes ≡ some t
      → IsShown texts nodes t
  unfolding restriction_text nodes_match
  restriction_text-IsShown texts [] t h = cc
  restriction_text-IsShown texts (n ∷ nodes) t h =
      elim (or_next-some (node_match casefold (wanted_texts casefold texts) n) _ t h) [
        | inl e ↦ (let (m, k) = node_match-Begins texts n t e in (m, n, Memᴰ.head refl, k))
        | inr e ↦
            (let (m, shown, there, k) = restriction_text-IsShown texts nodes t e in
              (m, shown, Memᴰ.tail there, k))
      ]

  module _ (texts : List Text) (solid : All (λ t. is_empty t ≡ false) texts) where
    -- a text of the list that is found is a match
    first_match-finds :
        (shown t : Text)
        → Memᴰ t texts
        → starts_with shown (folded casefold t) ≡ true
        → (u : Text) × (is_empty u ≡ false)
          × (first_match shown (wanted_texts casefold texts) ≡ some u)
    first_match-finds shown t m h =
        elim (Option-cases (first_match shown (wanted_texts casefold texts))) [
          | inl e ↦ absurd (first_match-some shown t texts m h e)
          | inr (u, e) ↦ (u, All-mem _ solid (first_match-Memᴰ shown u texts e).0, e)
        ]

    node_match-finds :
        (n : Node) (t : Text)
        → Memᴰ t texts
        → Begins n t
        → (u : Text) × (is_empty u ≡ false)
          × (node_match casefold (wanted_texts casefold texts) n ≡ some u)
    unfolding node_match or_next
    node_match-finds n t m (inl h) =
        let (u, full, e) = first_match-finds (folded casefold n.text) t m h in
        (u, full, rw (e, full) refl)
    node_match-finds n t m (inr h) =
        let (v, ready, k) = first_match-finds (folded casefold n.desc) t m h in
        elim (Option-cases (first_match (folded casefold n.text) (wanted_texts casefold texts))) [
          | inl e ↦ (v, ready, rw e k)
          | inr (u, e) ↦
              (let full : is_empty u ≡ false =
                  All-mem _ solid (first_match-Memᴰ (folded casefold n.text) u texts e).0 in
                (u, full, rw (e, full) refl))
        ]

    restriction_text-some :
        (nodes : List Node) (n : Node) (t : Text)
        → Memᴰ t texts
        → Memᴰ n nodes
        → Begins n t
        → restriction_text casefold texts nodes ≢ none
    unfolding restriction_text nodes_match
    restriction_text-some [] n t m there h k = elim there [ ]
    restriction_text-some (o ∷ nodes) n t m (Memᴰ.head e) h k =
        let (u, full, found) = node_match-finds o t m (rw (sym e) h) in
        (or_next-none _ _ k).1 u full found
    restriction_text-some (o ∷ nodes) n t m (Memᴰ.tail there) h k =
        restriction_text-some nodes n t m there h (or_next-none _ _ k).0

    -- Let no text of restriction_texts be empty, and let the words of a node's text or description on screen
    -- be those of one of them and any more behind them, with case folded and however they are spaced. Then
    -- restriction_text() finds a text: one of restriction_texts that the text or the description of a node
    -- on screen begins with.
    pub restriction_text-finds :
        (nodes : List Node) (n : Node) (t : Text) (more : List Text)
        → Memᴰ t texts
        → Memᴰ n nodes
        → Opens n t more
        → (u : Text) × (restriction_text casefold texts nodes ≡ some u) × IsShown texts nodes u
    restriction_text-finds nodes n t more m there h =
        elim (Option-cases (restriction_text casefold texts nodes)) [
          | inl e ↦ absurd (restriction_text-some nodes n t m there (Opens-Begins n t more h) e)
          | inr (u, e) ↦ (u, e, restriction_text-IsShown texts nodes u e)
        ]
