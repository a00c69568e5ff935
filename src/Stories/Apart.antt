-- ===== src/Stories/Apart.antt =====
-- The stories that app/instadroid/stories.py keeps: no two that look alike, none twice.
use instadroid.Prelude.{
  ℕ, zero, suc, ◌+◌, ◌≤◌, ◌<◌, ◌≡◌, ◌≢◌, refl, inl, inr, Bool, false, not, ◌&&◌, ◌||◌, some, List,
  [], ◌∷◌, arith, if◌then◌else◌, Text, text_eq, text_eq_iff, any, keep, take, All, All-keep, length,
  Bool-cases, Option-cases,
}
use instadroid.Retention.Pruning.{Story}
use instadroid.Stories.Hash.{dhash, differing, differing_comm}
use instadroid.Stories.Storing.{
  CapturedStory, Shelf, day, looks_like, find_story_duplicate, new_story, store_story, TrayItem,
  reach_home, store_captured, visit_items, scrape_stories,
}

-- A story stored within a day of an earlier one differs from it in more than 4 of the 64 bits of its
-- hash, and in more than 10 if it is the same account's.
abbrev pub IsApart : Story → Story → Type 0
IsApart new old =
    (h k : ℕ)
    → new.phash ≡ some h
    → old.phash ≡ some k
    → new.scraped_at < old.scraped_at + day
    → (4 < differing 64 h k) × (new.username ≡ old.username → 10 < differing 64 h k)

abbrev pub AreApart : List Story → Type 0
AreApart [] = Unit
AreApart (s ∷ stories) = All (IsApart s) stories × AreApart stories

-- no id twice
abbrev pub HaveIds : List Story → Type 0
HaveIds [] = Unit
HaveIds (s ∷ stories) = All (λ x. x.id ≢ s.id) stories × HaveIds stories

looks_like-IsApart :
    (now : ℕ) (c : CapturedStory) (s : Story)
    → looks_like now c.username (dhash c.pixels) s ≡ false
    → IsApart (new_story now c) s
unfolding looks_like new_story
looks_like-IsApart now c s e h k eh ek near = (
  ground (arith, differing_comm 64 h k),
  λ u. ground (arith, differing_comm 64 h k, text_eq_iff s.username c.username),
)

duplicate-AreApart :
    (stories : List Story) (now : ℕ) (c : CapturedStory)
    → find_story_duplicate stories now c.username (dhash c.pixels) ≡ false
    → All (IsApart (new_story now c)) stories
unfolding find_story_duplicate any
duplicate-AreApart [] now c e = tt
duplicate-AreApart (s ∷ stories) now c e =
    (looks_like-IsApart now c s (ground arith), duplicate-AreApart stories now c (ground arith))

fresh-ids :
    (stories : List Story) (id : Text)
    → any (λ x. text_eq x.id id) stories ≡ false
    → All (λ x. x.id ≢ id) stories
unfolding any
fresh-ids [] id e = tt
fresh-ids (s ∷ stories) id e =
    (λ q. ground (arith, text_eq_iff s.id id), fresh-ids stories id (ground arith))

pub record IsTidy (stories : List Story) : Type 0 where
  pub apart : AreApart stories
  pub ids : HaveIds stories

store_story-IsTidy :
    (now : ℕ) (c : CapturedStory) (s : Shelf)
    → IsTidy s.stories
    → IsTidy (store_story now c s).0.stories
unfolding store_story new_story
store_story-IsTidy now c s h =
    elim (Bool-cases
      (c.is_blank || find_story_duplicate s.stories now c.username (dhash c.pixels))) [
        | inl e ↦ rw e h
        | inr e ↦ elim (Bool-cases (any (λ x. text_eq x.id c.digest) s.stories)) [
          | inl k ↦ rw (e, k) h
          | inr k ↦
              rw (e, k)
                (record {
                  apart = (duplicate-AreApart s.stories now c (ground arith), h.apart);
                  ids = (fresh-ids s.stories c.digest k, h.ids);
                })
        ]
      ]

store_story-counted :
    (now : ℕ) (c : CapturedStory) (s : Shelf)
    → length (store_story now c s).0.stories
      ≡ length s.stories + (if (store_story now c s).1 then 1 else 0)
unfolding store_story
store_story-counted now c s = ground arith

-- what the visits leave, `n` items on
pub record IsGrown (before : List Story) (n new : ℕ) (s : Shelf) (new' : ℕ) : Type 0 where
  pub tidy : IsTidy s.stories
  pub counted : length s.stories + new ≡ length before + new'
  pub bounded : new' ≤ new + n

store_captured-IsGrown :
    (i : TrayItem) (s : Shelf) (new : ℕ)
    → IsTidy s.stories
    → IsGrown s.stories 1 new
        (store_captured i s).0
        (if (store_captured i s).1 then new + 1 else new)
unfolding store_captured
store_captured-IsGrown i s new h = elim (Option-cases i.captured) [
  | inl e ↦ rw e (record { tidy = h; counted = refl; bounded = omega arith })
  | inr (c, e) ↦ rw e (record {
    tidy = store_story-IsTidy i.now c s h;
    counted = ground (arith, store_story-counted i.now c s);
    bounded = ground arith;
  })
]

visit_items-IsGrown :
    (items : List TrayItem) (s : Shelf) (new : ℕ)
    → IsTidy s.stories
    → IsGrown s.stories
        (length items)
        new
        (visit_items items (s, new)).0
        (visit_items items (s, new)).1
unfolding visit_items
visit_items-IsGrown [] s new h = record { tidy = h; counted = refl; bounded = omega arith }
visit_items-IsGrown (i ∷ items) s new h =
    elim (Bool-cases (not i.on_home && not (reach_home i.recovered))) [
      | inl e ↦ rw e (record { tidy = h; counted = refl; bounded = omega arith })
      | inr e ↦
          (let one = store_captured-IsGrown i s new h in
            let rest =
              visit_items-IsGrown items (store_captured i s).0
                (if (store_captured i s).1 then new + 1 else new) one.tidy in
            rw e (record {
              tidy = rest.tidy;
              counted = omega (arith, one.counted, rest.counted);
              bounded = omega (arith, one.bounded, rest.bounded);
            }))
    ]

length-take-le : {A : Type 0} (n : ℕ) (xs : List A) → length (take n xs) ≤ n
length-take-le zero xs = omega arith
length-take-le (suc n) [] = omega arith
length-take-le (suc n) (x ∷ xs) = omega (arith, length-take-le n xs)

-- After a round of stories, as before it, no two stories within a day of each other look alike, and no
-- id is there twice; the number returned is that of the stories added, at most MAX_STORIES_PER_RUN.
pub scrape_stories-IsGrown :
    (max : ℕ) (looks : List Bool) (tray : List TrayItem) (s : Shelf)
    → IsTidy s.stories
    → IsGrown s.stories max 0
        (scrape_stories max looks tray s).0
        (scrape_stories max looks tray s).1
unfolding scrape_stories
scrape_stories-IsGrown max looks tray s h = elim (Bool-cases (not (reach_home looks))) [
  | inl e ↦ rw e (record { tidy = h; counted = refl; bounded = omega arith })
  | inr e ↦
      (let chosen = take max (keep (λ (i : TrayItem). not i.seen) tray) in
        let done = visit_items-IsGrown chosen s 0 h in
        rw e (record {
          tidy = done.tidy;
          counted = done.counted;
          bounded =
              omega (
                arith,
                done.bounded,
                length-take-le max (keep (λ (i : TrayItem). not i.seen) tray),
              );
        }))
]

AreApart-keep :
    (p : Story → Bool) (stories : List Story) → AreApart stories → AreApart (keep p stories)
unfolding keep
AreApart-keep p [] h = tt
AreApart-keep p (s ∷ stories) (a, h) = elim (Bool-cases (p s)) [
  | inl e ↦ rw e (All-keep (IsApart s) p stories a, AreApart-keep p stories h)
  | inr e ↦ rw e (AreApart-keep p stories h)
]

HaveIds-keep :
    (p : Story → Bool) (stories : List Story) → HaveIds stories → HaveIds (keep p stories)
unfolding keep
HaveIds-keep p [] h = tt
HaveIds-keep p (s ∷ stories) (a, h) = elim (Bool-cases (p s)) [
  | inl e ↦ rw e (All-keep (λ x. x.id ≢ s.id) p stories a, HaveIds-keep p stories h)
  | inr e ↦ rw e (HaveIds-keep p stories h)
]

-- any stories may be deleted
pub IsTidy-keep :
    (p : Story → Bool) (stories : List Story) → IsTidy stories → IsTidy (keep p stories)
IsTidy-keep p stories h = record {
  apart = AreApart-keep p stories h.apart;
  ids = HaveIds-keep p stories h.ids;
}
