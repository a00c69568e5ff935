-- ===== src/Feed/Reading.antt =====
-- What holds of every card that parse_hierarchy() of app/instadroid/parsing.py returns.
use mathlib.Core.List.{reverse, Memᴰ}
use instadroid.Prelude.{
  ℕ, ◌≡◌, refl, sym, ◌∙◌, true, false, Option, none, some, List, [], ◌∷◌, arith, map, All, All-keep,
  All-map, All-reverse, All-mono, All-Memᴰ, Bool-cases, inl, inr,
}
use instadroid.Db.Posts.{truthy}
use instadroid.Feed.Cards.{
  Node, Header, Selectors, Post, Walk, new_post, headless_post, headed_post, adopt_header,
  close_card, card_step, leave, closed, next_header, header_step, inner_step, walk_step, walk,
  clip_of, settle_kind, is_known, started, parse_hierarchy, awaits_header,
}

abbrev pub Holds : (Post → Type 0) → Option Post → Type 0
Holds P none = Unit
Holds P (some c) = P c

-- A fact about cards that every step of the walk keeps, at nodes that meet `Q`.
record IsKept (sel : Selectors) (clip : ℕ) (P : Post → Type 0) (Q : Node → Type 0) : Type 0 where
  fresh : P (headless_post clip)
  inside : (c : Post) (n : Node) → Q n → P c → P (card_step sel c n)
  ends : (c : Post) → P c → P (close_card c)
  settles : (c : Post) → P c → P (settle_kind c)
  adopts :
      (c : Post) (h : Header) (n : Node)
      → Q n
      → sel.is_header n.rid ≡ true
      → sel.header_desc n.desc ≡ some h
      → P c
      → P (adopt_header c h n)
  heads :
      (h : Header) (n : Node)
      → Q n
      → sel.is_header n.rid ≡ true
      → sel.header_desc n.desc ≡ some h
      → P (headed_post sel h n clip)

module _ (sel : Selectors) (clip : ℕ) {P : Post → Type 0} {Q : Node → Type 0}
    (k : IsKept sel clip P Q) where
  abbrev AllCards : Walk → Type 0
  AllCards w = All P w.left × Holds P w.cur

  leave-All :
      (cur : Option Post) (left : List Post) → All P left → Holds P cur → All P (leave cur left)
  unfolding leave
  leave-All none left h c = h
  leave-All (some p) left h c = (c, h)

  closed-Holds : (cur : Option Post) → Holds P cur → Holds P (closed cur)
  unfolding closed
  closed-Holds none h = tt
  closed-Holds (some c) h = k.ends c h

  next_header-All :
      (o : Option Header) (n : Node) (cur : Option Post) (left : List Post)
      → Q n
      → sel.is_header n.rid ≡ true
      → sel.header_desc n.desc ≡ o
      → All P left
      → Holds P cur
      → AllCards (next_header sel clip o n cur left)
  unfolding next_header
  next_header-All none n cur left q b e h c = (leave-All cur left h c, tt)
  next_header-All (some x) n cur left q b e h c = (leave-All cur left h c, k.heads x n q b e)

  header_step-All :
      (o : Option Header) (n : Node) (cur : Option Post) (left : List Post)
      → Q n
      → sel.is_header n.rid ≡ true
      → sel.header_desc n.desc ≡ o
      → All P left
      → Holds P cur
      → AllCards (header_step sel clip o n cur left)
  unfolding header_step
  header_step-All none n cur left q b e h c =
      next_header-All none n (closed cur) left q b e h (closed-Holds cur c)
  header_step-All (some x) n none left q b e h c = next_header-All (some x) n none left q b e h c
  header_step-All (some x) n (some p) left q b e h c = elim (Bool-cases (awaits_header sel p)) [
    | inl own ↦ rw own (h, k.adopts p x n q b e c)
    | inr other ↦
        rw other
          (next_header-All (some x) n (closed (some p)) left q b e h (closed-Holds (some p) c))
  ]

  inner_step-All :
      (cur : Option Post) (n : Node) (left : List Post)
      → Q n
      → All P left
      → Holds P cur
      → AllCards (inner_step sel cur n left)
  unfolding inner_step
  inner_step-All none n left q h c = (h, tt)
  inner_step-All (some p) n left q h c = (h, k.inside p n q c)

  walk_step-All : (w : Walk) (n : Node) → Q n → AllCards w → AllCards (walk_step sel clip w n)
  unfolding walk_step
  walk_step-All w n q (h, c) = elim (Bool-cases (sel.is_feed_list n.rid)) [
    | inl list ↦ rw list (leave-All w.cur w.left h c, k.fresh)
    | inr row ↦ elim (Bool-cases w.in_list) [
      | inr outside ↦ rw (row, outside) (h, c)
      | inl within ↦ elim (Bool-cases (sel.is_header n.rid)) [
        | inl head ↦
            rw (row, within, head)
              (header_step-All (sel.header_desc n.desc) n w.cur w.left q head refl h c)
        | inr body ↦ rw (row, within, body) (inner_step-All w.cur n w.left q h c)
      ]
    ]
  ]

  walk-All :
      (w : Walk) (nodes : List Node) → All Q nodes → AllCards w → AllCards (walk sel clip w nodes)
  unfolding walk
  walk-All w [] q h = h
  walk-All w (n ∷ nodes) (q, qs) h =
      walk-All (walk_step sel clip w n) nodes qs (walk_step-All w n q h)

  cards-All :
      (nodes : List Node)
      → All Q nodes
      → All P (
          map settle_kind
            (reverse (leave (walk sel clip started nodes).cur (walk sel clip started nodes).left)))
  cards-All nodes q =
      let w = walk sel clip started nodes in
      let (h, c) = walk-All started nodes q (tt, tt) in
      All-map P settle_kind _ (All-mono _ k.settles (All-reverse P _ (leave-All w.cur w.left h c)))

abbrev HasShare : Post → Type 0
HasShare p = p.complete ≡ true → truthy p.share_bounds ≡ true

card_step-HasShare :
    (sel : Selectors) (c : Post) (n : Node)
    → truthy n.bounds ≡ true
    → HasShare c
    → HasShare (card_step sel c n)
unfolding card_step
card_step-HasShare sel c n q h = λ done. ground (arith, h)

HasShare-kept :
    (sel : Selectors) (clip : ℕ) → IsKept sel clip HasShare (λ n. truthy n.bounds ≡ true)
unfolding headless_post headed_post new_post close_card settle_kind adopt_header
HasShare-kept sel clip = record {
  fresh = λ done. cc;
  inside = λ c n q h. card_step-HasShare sel c n q h;
  ends = λ c h done. ground (arith, h);
  settles = λ c h done. ground (arith, h);
  adopts = λ c x n q b e h. h;
  heads = λ x n q b e done. cc;
}

-- Where every node of the dump has bounds, a card that is marked complete has the bounds of its share
-- button.
parse_hierarchy-complete :
    (sel : Selectors) (nodes : List Node)
    → All (λ n. truthy n.bounds ≡ true) nodes
    → All (λ p. p.complete ≡ true → truthy p.share_bounds ≡ true) (parse_hierarchy sel nodes)
unfolding parse_hierarchy
parse_hierarchy-complete sel nodes q =
    All-keep _ is_known _
      (cards-All sel (clip_of sel nodes) (HasShare-kept sel (clip_of sel nodes)) nodes q)

-- The header of a card, among these nodes.
pub record IsHeaded (sel : Selectors) (nodes : List Node) (p : Post) : Type 0 where
  pub node : Node
  pub listed : Memᴰ node nodes
  pub is_header : sel.is_header node.rid ≡ true
  pub header : Header
  pub read : sel.header_desc node.desc ≡ some header
  pub author : p.username ≡ header.user
  pub date : p.posted_date ≡ header.date

abbrev Headed : Selectors → List Node → Post → Type 0
Headed sel nodes p = p.headless ≡ false → IsHeaded sel nodes p

card_step-same :
    (sel : Selectors) (c : Post) (n : Node)
    → ((card_step sel c n).headless ≡ c.headless)
      × (c.headless ≡ false
          → ((card_step sel c n).username ≡ c.username)
            × ((card_step sel c n).posted_date ≡ c.posted_date))
unfolding card_step
card_step-same sel c n = (ground arith, λ h. (ground arith, ground arith))

Headed-same :
    (sel : Selectors) (nodes : List Node) (p p' : Post)
    → p'.headless ≡ p.headless
    → (p.headless ≡ false → (p'.username ≡ p.username) × (p'.posted_date ≡ p.posted_date))
    → Headed sel nodes p
    → Headed sel nodes p'
Headed-same sel nodes p p' same rest h off =
    let before = h (sym same ∙ off) in
    let (u, d) = rest (sym same ∙ off) in
    record {
      node = before.node;
      listed = before.listed;
      is_header = before.is_header;
      header = before.header;
      read = before.read;
      author = u ∙ before.author;
      date = d ∙ before.date;
    }

close_card-same :
    (c : Post)
    → ((close_card c).headless ≡ c.headless)
      × (c.headless ≡ false
          → ((close_card c).username ≡ c.username) × ((close_card c).posted_date ≡ c.posted_date))
unfolding close_card
close_card-same c = ground arith

settle_kind-same :
    (c : Post)
    → ((settle_kind c).headless ≡ c.headless)
      × (c.headless ≡ false
          → ((settle_kind c).username ≡ c.username) × ((settle_kind c).posted_date ≡ c.posted_date))
unfolding settle_kind
settle_kind-same c = ground arith

Headed-kept :
    (sel : Selectors) (clip : ℕ) (nodes : List Node)
    → IsKept sel clip (Headed sel nodes) (λ n. Memᴰ n nodes)
unfolding headless_post headed_post new_post adopt_header
Headed-kept sel clip nodes = record {
  fresh = λ off. cc;
  inside = λ c n q h.
      let (s, r) = card_step-same sel c n in Headed-same sel nodes c (card_step sel c n) s r h;
  ends = λ c h. let (s, r) = close_card-same c in Headed-same sel nodes c (close_card c) s r h;
  settles = λ c h. let (s, r) = settle_kind-same c in Headed-same sel nodes c (settle_kind c) s r h;
  adopts = λ c x n q b e h off. record {
    node = n;
    listed = q;
    is_header = b;
    header = x;
    read = e;
    author = refl;
    date = refl;
  };
  heads = λ x n q b e off. record {
    node = n;
    listed = q;
    is_header = b;
    header = x;
    read = e;
    author = refl;
    date = refl;
  };
}

-- A card that is not headless has the author and the date of a header on the screen.
pub parse_hierarchy-IsHeaded :
    (sel : Selectors) (nodes : List Node)
    → All (λ p. p.headless ≡ false → IsHeaded sel nodes p) (parse_hierarchy sel nodes)
unfolding parse_hierarchy
parse_hierarchy-IsHeaded sel nodes = All-keep _ is_known _ (
    cards-All sel (clip_of sel nodes) (Headed-kept sel (clip_of sel nodes) nodes) nodes
      (All-Memᴰ nodes))
