-- ===== src/Navigation/Backing.antt =====
-- Backing out of sheets and screens (app/instadroid/navigation.py) without leaving Instagram.
use instadroid.Prelude.{
  ℕ, zero, suc, ◌+◌, ◌≤◌, ◌≡◌, refl, inl, inr, Bool, true, false, not, ◌&&◌, ◌||◌, Option, none,
  some, is_some, [], ◌∷◌, arith, if◌then◌else◌, Option-cases,
}
use instadroid.Navigation.Driving.{
  Question, in_front, sheet_open, on_feed, Act, launch_app, press_back, asked, did, Device, M,
  Result, ok, fail, Log, after, ◌>>=◌, ◌>>◌, pure, act, ask,
}
use instadroid.Navigation.Sheets.{
  ensure_foreground, press_back_again, close_rounds, close_or_stop, is_closed, close_sheets,
  feed_showing, feed_or_back, back_to_feed,
}

abbrev pub is_front : Question → Bool
is_front in_front = true
is_front _ = false

-- Instagram was seen in front since the last action
abbrev pub saw_front : Log → Bool
saw_front [] = false
saw_front (did a ∷ l) = false
saw_front (asked q a ∷ l) = (is_front q && is_some a) || saw_front l

abbrev pub is_back : Act → Bool
is_back press_back = true
is_back _ = false

abbrev pub backs : Log → ℕ
backs [] = 0
backs (asked q a ∷ l) = backs l
backs (did a ∷ l) = (if is_back a then 1 else 0) + backs l

-- Back is pressed only where Instagram was seen in front since the last action
abbrev pub IsInside : Log → Type 0
IsInside [] = Unit
IsInside (asked q a ∷ l) = IsInside l
IsInside (did press_back ∷ l) = (saw_front l ≡ true) × IsInside l
IsInside (did a ∷ l) = IsInside l

-- it stays inside, with so many more Backs at most
record Stays {A : Type 0} (n : ℕ) (m : M A) : Type 0 where
  at : (l : Log) → IsInside l → IsInside (m l).1 × (backs (m l).1 ≤ backs l + n)

Stays-after :
    {A B : Type 0} (n k : ℕ) (l : Log) (r : Result A × Log) (f : A → M B)
    → IsInside r.1 × (backs r.1 ≤ backs l + n)
    → ((a : A) → Stays k (f a))
    → IsInside (after r f).1 × (backs (after r f).1 ≤ backs l + (n + k))
Stays-after n k l (ok a, l') f (h, le) g =
    let (h', le') = (g a).at l' h in (h', omega (arith, le, le'))
Stays-after n k l (fail e, l') f (h, le) g = (h, omega (arith, le))

Stays-bind :
    {A B : Type 0} (n k : ℕ) (m : M A) (f : A → M B)
    → Stays n m
    → ((a : A) → Stays k (f a))
    → Stays (n + k) (m >>= f)
Stays-bind n k m f h g = record { at = λ l i. Stays-after n k l (m l) f (h.at l i) g }

Stays-if :
    {A : Type 0} (n : ℕ) (b : Bool) (m k : M A)
    → Stays n m
    → Stays n k
    → Stays n (if b then m else k)
Stays-if n true m k h g = h
Stays-if n false m k h g = g

Stays-pure : {A : Type 0} (n : ℕ) (a : A) → Stays n (pure a)
Stays-pure n a = record { at = λ l i. (i, omega arith) }

module _ (dev : Device) where
  Stays-ask : (q : Question) → Stays 0 (ask dev q)
  Stays-ask q = record { at = go }
    where
      go : (l : Log) → IsInside l → IsInside (ask dev q l).1 × (backs (ask dev q l).1 ≤ backs l + 0)
      go l i =
          unfold ask in
          elim (Option-cases (dev q l)) [
            | inl e ↦ rw (e, ask) (i, omega arith)
            | inr (a, e) ↦ rw (e, ask) (i, omega arith)
          ]

  Stays-launch : Stays 0 (act launch_app)
  unfolding act
  Stays-launch = record { at = λ l i. (i, omega arith) }

  Stays-ensure_foreground : Stays 0 (ensure_foreground dev)
  unfolding ensure_foreground
  Stays-ensure_foreground = Stays-bind 0 0 (ask dev in_front) _ (Stays-ask in_front) (λ front.
      Stays-if 0 (is_some front) _ _ (Stays-pure 0 false)
        (Stays-bind 0 0 (act launch_app) _ Stays-launch (λ _. Stays-pure 0 true)))

  Stays-is_closed : (sheet : Option Bool) → Stays 0 (is_closed dev sheet)
  unfolding is_closed
  Stays-is_closed (some sheet) = Stays-pure 0 (not sheet)
  Stays-is_closed none =
      Stays-bind 0 0 (ask dev sheet_open) _ (Stays-ask sheet_open)
        (λ s. Stays-pure 0 (not (is_some s)))

  Stays-feed_showing : Stays 0 (feed_showing dev)
  unfolding feed_showing
  Stays-feed_showing =
      Stays-bind 0 0 (ask dev on_feed) _ (Stays-ask on_feed) (λ feed. Stays-pure 0 (is_some feed))

  -- one Back where Instagram was seen, and what follows
  press :
      {A : Type 0} (n : ℕ) (next : M A) (l : Log)
      → saw_front l ≡ true
      → IsInside l
      → Stays n next
      → IsInside ((act press_back >> next) l).1
        × (backs ((act press_back >> next) l).1 ≤ backs l + suc n)
  unfolding act
  press n next l front i h =
      let (i', le) = h.at (did press_back ∷ l) (front, i) in (i', omega (arith, le))

  -- the end of a round of close_sheets(), where Instagram is in front
  front_round :
      (n : ℕ) (first : Bool) (l : Log)
      → saw_front l ≡ true
      → IsInside l
      → Stays n (close_rounds dev n false none)
      → IsInside (close_or_stop dev first (close_rounds dev n false none) l).1
        × (backs (close_or_stop dev first (close_rounds dev n false none) l).1 ≤ backs l + suc n)
  unfolding close_or_stop press_back_again ask
  front_round n true l front i later = press n _ l front i later
  front_round n false l front i later = elim (Option-cases (dev on_feed l)) [
    | inl e ↦ rw (e, ask) (i, omega arith)
    | inr (some t, e) ↦ rw (e, ask) (i, omega arith)
    | inr (none, e) ↦ rw (e, ask) (press n _ (asked on_feed none ∷ l) front i later)
  ]

  -- a round of close_sheets(), with those after it
  close_round :
      (n : ℕ) (first : Bool) (sheet : Option Bool) (l : Log)
      → IsInside l
      → Stays n (close_rounds dev n false none)
      → IsInside (close_rounds dev (suc n) first sheet l).1
        × (backs (close_rounds dev (suc n) first sheet l).1 ≤ backs l + suc n)
  unfolding close_rounds press_back_again ask
  close_round n first sheet l i later = elim (Option-cases (dev sheet_open l)) [
    | inl e ↦ rw (e, ask) (i, omega arith)
    | inr (none, e) ↦ rw (e, ask) (i, omega arith)
    | inr (some t, e) ↦
        rw (e, ask)
          (let l' : Log = asked sheet_open (some t) ∷ l in
            elim (Option-cases (dev in_front l')) [
              | inl e' ↦ rw (e', ask) (i, omega arith)
              | inr (none, e') ↦ rw (e', ask) (i, omega arith)
              | inr (some u, e') ↦
                  rw (e', ask) (front_round n first (asked in_front (some u) ∷ l') refl i later)
            ])
  ]

  Stays-close_rounds :
      (n : ℕ) (first : Bool) (sheet : Option Bool) → Stays n (close_rounds dev n first sheet)
  Stays-close_rounds zero first sheet = unfold close_rounds in Stays-pure 0 sheet
  Stays-close_rounds (suc n) first sheet = record {
    at = λ l i. close_round n first sheet l i (Stays-close_rounds n false none);
  }

  Stays-close_sheets : (n : ℕ) → Stays (n + 0) (close_sheets dev n)
  unfolding close_sheets
  Stays-close_sheets n =
      Stays-bind n 0 (close_rounds dev n true none) _ (Stays-close_rounds n true none) (λ sheet.
        Stays-bind 0 0 (ensure_foreground dev) _ Stays-ensure_foreground
          (λ launched. Stays-is_closed (if launched then none else sheet)))

  -- a try of back_to_feed(), with those after it
  back_once :
      (n : ℕ) (l : Log)
      → saw_front l ≡ true
      → IsInside l
      → Stays n (back_to_feed dev n)
      → IsInside (feed_or_back dev (back_to_feed dev n) l).1
        × (backs (feed_or_back dev (back_to_feed dev n) l).1 ≤ backs l + suc n)
  unfolding feed_or_back ask
  back_once n l front i later = elim (Option-cases (dev on_feed l)) [
    | inl e ↦ rw (e, ask) (i, omega arith)
    | inr (none, e) ↦ rw (e, ask) (press n _ (asked on_feed none ∷ l) front i later)
    | inr (some t, e) ↦
        rw (e, ask)
          (let l' : Log = asked on_feed (some t) ∷ l in
            elim (Option-cases (dev sheet_open l')) [
              | inl e' ↦ rw (e', ask) (i, omega arith)
              | inr (none, e') ↦ rw (e', ask) (i, omega arith)
              | inr (some u, e') ↦
                  rw (e', ask) (press n _ (asked sheet_open (some u) ∷ l') front i later)
            ])
  ]

  back_round :
      (n : ℕ) (l : Log)
      → IsInside l
      → Stays n (back_to_feed dev n)
      → IsInside (back_to_feed dev (suc n) l).1
        × (backs (back_to_feed dev (suc n) l).1 ≤ backs l + suc n)
  unfolding back_to_feed ensure_foreground ask act
  back_round n l i later = elim (Option-cases (dev in_front l)) [
    | inl e ↦ rw (e, ask) (i, omega arith)
    | inr (none, e) ↦
        rw (e, ask)
          (let (i', le) = Stays-feed_showing.at (did launch_app ∷ asked in_front none ∷ l) i in
            (i', omega (arith, le)))
    | inr (some t, e) ↦ rw (e, ask) (back_once n (asked in_front (some t) ∷ l) refl i later)
  ]

  Stays-back_to_feed : (n : ℕ) → Stays n (back_to_feed dev n)
  Stays-back_to_feed zero = unfold back_to_feed in Stays-feed_showing
  Stays-back_to_feed (suc n) = record { at = λ l i. back_round n l i (Stays-back_to_feed n) }

  -- Whatever the device shows, closing sheets and backing out to a feed press Back no more often than they
  -- were allowed to, and each time only where they saw Instagram in front since their last action.
  pub close_sheets-back_to_feed-IsInside :
      (n : ℕ)
      → (IsInside (close_sheets dev n []).1 × (backs (close_sheets dev n []).1 ≤ n))
        × (IsInside (back_to_feed dev n []).1 × (backs (back_to_feed dev n []).1 ≤ n))
  close_sheets-back_to_feed-IsInside n =
      let (i, le) = (Stays-close_sheets n).at [] tt in
      let (i', le') = (Stays-back_to_feed n).at [] tt in
      ((i, omega (arith, le)), (i', omega (arith, le')))
