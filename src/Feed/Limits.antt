-- ===== src/Feed/Limits.antt =====
-- restriction_text() of app/instadroid/parsing.py. The dump is the list of its nodes in document order;
-- `str.casefold` is a parameter.
use instadroid.Prelude.{Option, none, some, List, [], ◌∷◌, if◌then◌else◌, Text, starts_with, map}
use instadroid.Parsing.Words.{words, join}
use instadroid.Feed.Cards.{Node, is_empty}

-- next((t for key, t in wanted if shown.startswith(key)), None)
unfoldable pub first_match : Text → List (Text × Text) → Option Text
first_match shown [] = none
first_match shown ((key, t) ∷ wanted) =
    if starts_with shown key then some t else first_match shown wanted

-- `if match: return match`: an empty text is no match
unfoldable pub or_next : Option Text → Option Text → Option Text
or_next none next = next
or_next (some t) next = if is_empty t then next else some t

module _ (casefold : Text → Text) where
  -- " ".join(t.casefold().split())
  unfoldable pub folded : Text → Text
  folded t = join (words (casefold t))

  unfoldable pub wanted_texts : List Text → List (Text × Text)
  wanted_texts texts = map (λ t. (folded t, t)) texts

  unfoldable pub node_match : List (Text × Text) → Node → Option Text
  node_match wanted n =
      or_next (first_match (folded n.text) wanted) (first_match (folded n.desc) wanted)

  unfoldable pub nodes_match : List (Text × Text) → List Node → Option Text
  nodes_match wanted [] = none
  nodes_match wanted (n ∷ nodes) = or_next (node_match wanted n) (nodes_match wanted nodes)

  -- restriction_text(), of SELECTORS["restriction_texts"]
  unfoldable pub restriction_text : List Text → List Node → Option Text
  restriction_text texts nodes = nodes_match (wanted_texts texts) nodes
