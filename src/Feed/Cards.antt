-- ===== src/Feed/Cards.antt =====
-- parse_hierarchy() and clean_caption() of app/instadroid/parsing.py. The dump is the list of its nodes
-- in document order; what the profile in use says of them (app/igprofiles) is a record of tests. The
-- card that the walk is working on stands apart from those that it has left.
use instadroid.Prelude.{
  ℕ, ◌+◌, Bool, true, false, not, ◌&&◌, ◌||◌, Option, none, some, List, [], ◌∷◌, ◌++◌, ◌==◌,
  if◌then◌else◌, Text, codes, text_eq, starts_with, keep, find?, map, length, drop,
}
use mathlib.Core.List.{reverse}
use instadroid.Prelude.Strip.{strip}
use instadroid.Parsing.Words.{words, before, space}
use instadroid.Parsing.Identity.{or_empty}
use instadroid.Db.Posts.{truthy}
use instadroid.Common.{Box, parse_bounds}

-- One node's attributes; an absent one that the walk reads with `or ""` is empty.
pub record Node : Type 0 where
  pub rid : Text
  pub desc : Text
  pub text : Text
  pub class : Text
  pub bounds : Option Text

pub record Header : Type 0 where
  pub user : Text
  pub kind : Text
  pub date : Text
  pub place : Option Text

-- SELECTORS: the resource ids as tests, the patterns as matchers, and Python's `str.lower`.
pub record Selectors : Type 0 where
  pub is_action_bar : Text → Bool
  pub is_feed_list : Text → Bool
  pub is_header : Text → Bool
  pub is_media : Text → Bool
  pub is_share : Text → Bool
  pub header_desc : Text → Option Header
  pub mute_prefix : Text
  pub media_alt : Text → Bool
  pub alt_kind : Text → Option Text
  pub caption_class : Text
  pub has_more : Text → Bool
  pub drop_more : Text → Text
  pub timestamp : Text → Bool
  pub lower : Text → Text

pub record Post : Type 0 where
  pub kind : Text
  pub username : Text
  pub posted_date : Text
  pub place : Text
  pub caption : Text
  pub caption_bounds : Option Text
  pub caption_truncated : Bool
  pub bounds : Option Text
  pub share_bounds : Option Text
  pub header_bounds : Option Text
  pub clip_top : ℕ
  pub alt : Text
  pub headless : Bool
  pub complete : Bool
  pub merged_reel : Bool

unfoldable pub new_post : Text → Text → Text → Text → ℕ → Post
new_post user kind date place clip_top = record {
  kind = kind;
  username = user;
  posted_date = date;
  place = place;
  caption = [];
  caption_bounds = none;
  caption_truncated = false;
  bounds = none;
  share_bounds = none;
  header_bounds = none;
  clip_top = clip_top;
  alt = [];
  headless = false;
  complete = false;
  merged_reel = false;
}

unfoldable pub is_empty : Text → Bool
is_empty [] = true
is_empty (c ∷ s) = false

unfoldable pub is_none : Option Text → Bool
is_none none = true
is_none (some t) = false

-- text.replace("\u00a0", " ")
unfoldable pub plain_spaces : Text → Text
plain_spaces s = map (λ c. if c == 160 then 32 else c) s

unfoldable pub is_reel_word : Option Text → Bool
is_reel_word none = false
is_reel_word (some w) = text_eq w (codes "reel") || text_eq w (codes "video")

unfoldable pub adopt_header : Post → Header → Node → Post
adopt_header c h n = record c {
  username = h.user;
  posted_date = h.date;
  place = or_empty h.place;
  header_bounds = n.bounds;
  headless = false;
  merged_reel = true;
}

-- a card at the header that ends it
unfoldable pub close_card : Post → Post
close_card c = if truthy c.share_bounds then record c { complete = true } else c

read_share : Post → Node → Post
read_share c n = record c { share_bounds = n.bounds; complete = c.merged_reel || c.complete }

read_timestamp : Post → Node → Post
read_timestamp c n = record c {
  posted_date = if c.headless && is_empty c.posted_date then n.text else c.posted_date;
  complete = true;
}

-- The walk: the cards it has left, the last first; the card it is in; whether the list has begun.
pub record Walk : Type 0 where
  pub left : List Post
  pub cur : Option Post
  pub in_list : Bool

unfoldable pub leave : Option Post → List Post → List Post
leave none left = left
leave (some c) left = c ∷ left

unfoldable pub headless_post : ℕ → Post
headless_post clip_top = record (new_post [] [] [] [] clip_top) { headless = true }

unfoldable pub closed : Option Post → Option Post
closed none = none
closed (some c) = some (close_card c)

bottom_of : Option Box → ℕ
bottom_of none = 0
bottom_of (some b) = b.y2

unfoldable pub settle_kind : Post → Post
settle_kind p = if p.headless && is_empty p.kind then record p { kind = codes "post" } else p

unfoldable pub is_known : Post → Bool
is_known p = not (is_empty p.username) && (not (is_empty p.caption) || not (is_empty p.alt))

abbrev pub started : Walk
started = record { left = []; cur = none; in_list = false }

module _ (sel : Selectors) where
  unfoldable pub clean_caption : Text → Text → Text
  clean_caption text user =
      let t = strip (plain_spaces text) in
      let t' = if starts_with t (user ++ space ∷ []) then drop (length user + 1) t else t in
      strip (sel.drop_more t')

  -- x.split()[0].lower(), none where there is no word
  unfoldable pub first_word : Text → Option Text
  first_word s = elim (words s) [ [] ↦ none | w ∷ ws ↦ some (sel.lower w) ]

  -- a card of which only the leading media has been seen, whose header may still come
  unfoldable pub awaits_header : Post → Bool
  awaits_header c =
      c.headless
      && (is_empty c.username
          && (is_empty c.caption
              && (not (truthy c.share_bounds)
                  && (not (is_empty c.alt) && is_reel_word (first_word c.alt)))))

  unfoldable pub headed_post : Header → Node → ℕ → Post
  headed_post h n clip_top =
      record (new_post h.user (sel.lower h.kind) h.date (or_empty h.place) clip_top) {
        header_bounds = n.bounds;
      }

  read_alt : Post → Node → Post
  read_alt c n = record c {
    alt = n.desc;
    kind =
        if c.headless && is_empty c.kind
        then or_empty (elim (first_word n.desc) [ none ↦ none | some w ↦ sel.alt_kind w ])
        else c.kind;
  }

  read_caption : Post → Node → Post
  read_caption c n =
      let user = if c.headless && is_empty c.username then before space n.text else c.username in
      record c {
        username = user;
        caption_truncated = sel.has_more n.text;
        caption = clean_caption n.text user;
        caption_bounds = n.bounds;
        complete = truthy c.share_bounds || c.complete;
      }

  -- the elif chain over a node inside a card
  unfoldable pub card_step : Post → Node → Post
  unfolding read_share read_alt read_caption read_timestamp
  card_step c n =
      if is_none c.bounds && sel.is_media n.rid
      then record c { bounds = n.bounds }
      else if is_none c.share_bounds && sel.is_share n.rid
      then read_share c n
      else if c.headless
          && ((is_empty c.kind || text_eq c.kind (codes "post"))
              && starts_with n.desc sel.mute_prefix)
      then record c { kind = codes "video" }
      else if is_empty c.alt && sel.media_alt n.desc
      then read_alt c n
      else if is_empty c.caption && (not (is_empty n.text) && text_eq n.class sel.caption_class)
      then read_caption c n
      else if sel.timestamp n.text && truthy c.share_bounds
      then read_timestamp c n
      else c

  -- a header that starts a card of its own, or belongs to a sponsored card
  unfoldable pub next_header : ℕ → Option Header → Node → Option Post → List Post → Walk
  next_header clip_top none n cur left = record {
    left = leave cur left;
    cur = none;
    in_list = true;
  }
  next_header clip_top (some h) n cur left = record {
    left = leave cur left;
    cur = some (headed_post h n clip_top);
    in_list = true;
  }

  unfoldable pub header_step : ℕ → Option Header → Node → Option Post → List Post → Walk
  header_step clip_top none n cur left = next_header clip_top none n (closed cur) left
  header_step clip_top (some h) n none left = next_header clip_top (some h) n none left
  header_step clip_top (some h) n (some c) left =
      if awaits_header c
      then record { left = left; cur = some (adopt_header c h n); in_list = true }
      else next_header clip_top (some h) n (closed (some c)) left

  unfoldable pub inner_step : Option Post → Node → List Post → Walk
  inner_step none n left = record { left = left; cur = none; in_list = true }
  inner_step (some c) n left = record { left = left; cur = some (card_step c n); in_list = true }

  unfoldable pub walk_step : ℕ → Walk → Node → Walk
  walk_step clip_top w n =
      if sel.is_feed_list n.rid
      then record { left = leave w.cur w.left; cur = some (headless_post clip_top); in_list = true }
      else if not w.in_list
      then w
      else if sel.is_header n.rid
      then header_step clip_top (sel.header_desc n.desc) n w.cur w.left
      else inner_step w.cur n w.left

  unfoldable pub walk : ℕ → Walk → List Node → Walk
  walk clip_top w [] = w
  walk clip_top w (n ∷ nodes) = walk clip_top (walk_step clip_top w n) nodes

  unfoldable pub clip_of : List Node → ℕ
  unfolding bottom_of
  clip_of nodes = elim (find? (λ n. sel.is_action_bar n.rid) nodes) [
    | none ↦ 0
    | some n ↦ bottom_of (parse_bounds n.bounds)
  ]

  unfoldable pub parse_hierarchy : List Node → List Post
  parse_hierarchy nodes =
      let w = walk (clip_of nodes) started nodes in
      keep is_known (map settle_kind (reverse (leave w.cur w.left)))
