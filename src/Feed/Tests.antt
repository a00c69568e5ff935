-- ===== src/Feed/Tests.antt =====
-- A dump with one card, and one with a restriction below the feed.
use instadroid.Prelude.{◌≡◌, Bool, false, none, some, List, [], ◌∷◌, Text, codes, text_eq, All}
use instadroid.Feed.Cards.{
  Node, Selectors, parse_hierarchy, leave, walk, walk_step, is_known, settle_kind, header_step,
  next_header, inner_step, card_step, headed_post, headless_post, new_post, closed, close_card,
  is_none, is_empty, clip_of, awaits_header, first_word,
}
use mathlib.Core.List.{Memᴰ}
use instadroid.Prelude.{true, keep, ℕ, ◌+◌, ◌&&◌, leb, if◌then◌else◌, map, refl, inl}
use instadroid.Prelude.Strip.{is_space}
use instadroid.Parsing.Words.{words, words_from}
use instadroid.Db.Posts.{truthy}
use instadroid.Feed.Limits.{restriction_text}
use instadroid.Feed.Restricted.{IsShown, restriction_text-finds}
use instadroid.Feed.Reading.{parse_hierarchy-IsHeaded, IsHeaded}

is_id : Text → Text → Bool
is_id a b = text_eq b a

abbrev plain : Selectors
plain = record {
  is_action_bar = λ t. text_eq t (codes "bar");
  is_feed_list = λ t. text_eq t (codes "list");
  is_header = λ t. text_eq t (codes "header");
  is_media = λ t. text_eq t (codes "media");
  is_share = λ t. text_eq t (codes "share");
  header_desc = λ d.
      some (record { user = d; kind = codes "photo"; date = codes "1 hour ago"; place = none });
  mute_prefix = codes "Muted";
  media_alt = λ t. true;
  alt_kind = λ t. none;
  caption_class = codes "caption";
  has_more = λ t. false;
  drop_more = λ t. t;
  timestamp = λ t. false;
  lower = λ t. t;
}

abbrev node : Text → Node
node rid = record {
  rid = rid;
  desc = codes "ann";
  text = [];
  class = codes "view";
  bounds = some (codes "[0,0][10,10]");
}

abbrev one_card : List Node
one_card =
    node (codes "list")
    ∷ node (codes "header")
    ∷ node (codes "media")
    ∷ node (codes "share")
    ∷ node (codes "alt")
    ∷ node (codes "header")
    ∷ []

users_read : map (λ p. p.username) (parse_hierarchy plain one_card) ≡ codes "ann" ∷ []
unfolding parse_hierarchy keep leave walk walk_step is_known settle_kind header_step next_header
    inner_step card_step headed_post headless_post new_post closed close_card is_none is_empty
    clip_of awaits_header first_word text_eq truthy
users_read = refl

parse_hierarchy-IsHeaded_example :
    let sel : Selectors = plain in
    let nodes : List Node = one_card in
    All (λ p. p.headless ≡ false → IsHeaded sel nodes p) (parse_hierarchy sel nodes)
parse_hierarchy-IsHeaded_example = parse_hierarchy-IsHeaded plain one_card

ascii_fold : ℕ → ℕ
ascii_fold c = if leb 65 c && leb c 90 then c + 32 else c

abbrev fold : Text → Text
fold t = map ascii_fold t

abbrev limits : List Text
limits = codes "Try Again Later" ∷ codes "We restrict certain activity" ∷ []

abbrev limited : Node
limited = record (node []) { text = codes "We  restrict CERTAIN\nactivity to protect us" }

restriction_text-finds_example :
    (u : Text) × (restriction_text fold limits (node (codes "list") ∷ limited ∷ []) ≡ some u)
    × IsShown fold limits (node (codes "list") ∷ limited ∷ []) u
unfolding words words_from is_space ascii_fold is_empty
restriction_text-finds_example =
    restriction_text-finds fold limits (refl, (refl, tt)) (node (codes "list") ∷ limited ∷ [])
      limited (codes "We restrict certain activity")
      (codes "to" ∷ codes "protect" ∷ codes "us" ∷ []) (Memᴰ.tail (Memᴰ.head refl))
      (Memᴰ.tail (Memᴰ.head refl)) (inl refl)
