-- ===== src/Navigation/Arrived.antt =====
-- Where the openers of app/instadroid/navigation.py have come to when they say that they got there.
use instadroid.Prelude.{
  ℕ, zero, suc, inl, inr, Bool, true, false, none, some, ◌∷◌, if◌then◌else◌, Text, Option-cases,
}
use instadroid.Navigation.Driving.{
  Question, on_home, on_following, on_list, home_tab, switcher, menu_entry, profile_tab, list_link,
  Act, press_back, tap_home, tap_following, tap_profile, tap_link, asked, Device, M, Result, ok,
  fail, Log, after, ◌>>=◌, pure, act, ask,
}
use instadroid.Navigation.Login.{LoginSettings}
use instadroid.Navigation.Feeds.{
  caught, try_once, otherwise, ◌orelse◌, prepare_app, shows, wait_until, give_up, tap_home_tab,
  home_attempts, open_home_feed, find_switcher, open_menu, switch_feed, switch_or_back,
  following_attempts, open_following_feed, open_list, list_attempt, list_attempts,
  open_own_following_list,
}

-- the last look was for the screen, and saw it
abbrev pub SawHome : Log → Type 0
SawHome (asked on_home (some t) ∷ l) = Unit
SawHome _ = ⊥

abbrev pub SawFollowing : Log → Type 0
SawFollowing (asked on_following (some t) ∷ l) = Unit
SawFollowing _ = ⊥

abbrev pub SawList : Log → Type 0
SawList (asked on_list (some t) ∷ l) = Unit
SawList _ = ⊥

-- if it returns True, `P` holds of the log
abbrev pub Arrives : (Log → Type 0) → Result Bool × Log → Type 0
Arrives P (ok true, l) = P l
Arrives P (ok false, l) = Unit
Arrives P (fail e, l) = Unit

module _ (P : Log → Type 0) where
  record Reaches (m : M Bool) : Type 0 where
    at : (l : Log) → Arrives P (m l)

  Arrives-after :
      {A : Type 0} (r : Result A × Log) (f : A → M Bool)
      → ((a : A) → Reaches (f a))
      → Arrives P (after r f)
  Arrives-after (ok a, l) f h = (h a).at l
  Arrives-after (fail e, l) f h = tt

  Reaches-bind :
      {A : Type 0} (m : M A) (f : A → M Bool) → ((a : A) → Reaches (f a)) → Reaches (m >>= f)
  Reaches-bind m f h = record { at = λ l. Arrives-after (m l) f h }

  Reaches-if : (b : Bool) (m k : M Bool) → Reaches m → Reaches k → Reaches (if b then m else k)
  Reaches-if true m k h g = h
  Reaches-if false m k h g = g

  Arrives-caught : (r : Result Bool × Log) → Arrives P r → Arrives P (caught r)
  Arrives-caught (ok true, l) h = h
  Arrives-caught (ok false, l) h = tt
  Arrives-caught (fail e, l) h = tt

  Reaches-try_once : (m : M Bool) → Reaches m → Reaches (try_once m)
  Reaches-try_once m h = record { at = λ l. Arrives-caught (m l) (h.at l) }

  Arrives-otherwise :
      (r : Result Bool × Log) (next : M Bool)
      → Arrives P r
      → Reaches next
      → Arrives P (otherwise r next)
  Arrives-otherwise (ok true, l) next h k = h
  Arrives-otherwise (ok false, l) next h k = k.at l
  Arrives-otherwise (fail e, l) next h k = tt

  Reaches-orelse : (m k : M Bool) → Reaches m → Reaches k → Reaches (m orelse k)
  Reaches-orelse m k h g = record { at = λ l. Arrives-otherwise (m l) k (h.at l) g }

  Reaches-false : Reaches (pure false)
  Reaches-false = record { at = λ l. tt }

  module _ (dev : Device) where
    Reaches-give_up : (a : Act) → Reaches (give_up dev a)
    unfolding give_up act
    Reaches-give_up a = record { at = λ l. tt }

    -- a look for the screen itself
    Reaches-shows :
        (q : Question) → ((t : Text) (l : Log) → P (asked q (some t) ∷ l)) → Reaches (shows dev q)
    Reaches-shows q h = record { at = look }
      where
        look : (l : Log) → Arrives P (shows dev q l)
        look l =
            unfold shows ask in
            elim (Option-cases (dev q l)) [
              | inl e ↦ rw (e, ask) tt
              | inr (none, e) ↦ rw (e, ask) tt
              | inr (some t, e) ↦ rw (e, ask) (h t l)
            ]

    Reaches-wait_until :
        (n : ℕ) (q : Question)
        → ((t : Text) (l : Log) → P (asked q (some t) ∷ l))
        → Reaches (wait_until dev n q)
    unfolding wait_until
    Reaches-wait_until zero q h = Reaches-false
    Reaches-wait_until (suc n) q h =
        Reaches-orelse (shows dev q) _ (Reaches-shows q h) (Reaches-wait_until n q h)

module _ (dev : Device) where
  home_attempts-reach : (n : ℕ) → Reaches SawHome (home_attempts dev n)
  unfolding home_attempts tap_home_tab
  home_attempts-reach zero = Reaches-false SawHome
  home_attempts-reach (suc n) =
      Reaches-orelse SawHome _ (home_attempts dev n)
        (Reaches-orelse SawHome (shows dev on_home) _
          (Reaches-shows SawHome dev on_home (λ t l. tt))
          (Reaches-bind SawHome (shows dev home_tab) _ (λ tab.
            Reaches-if SawHome tab _ _
              (Reaches-try_once SawHome (tap_home_tab dev) (
                Reaches-bind SawHome (act tap_home) _
                  (λ _. Reaches-wait_until SawHome dev 6 on_home (λ t l. tt))))
              (Reaches-give_up SawHome dev press_back))))
        (home_attempts-reach n)

  switch_feed-reach : Reaches SawFollowing (switch_feed dev)
  unfolding switch_feed
  switch_feed-reach = Reaches-bind SawFollowing (open_menu dev 4) _ (λ _.
      Reaches-bind SawFollowing (shows dev menu_entry) _ (λ entry.
        Reaches-if SawFollowing entry _ _
          (Reaches-bind SawFollowing (act tap_following) _
            (λ _. Reaches-wait_until SawFollowing dev 6 on_following (λ t l. tt)))
          (Reaches-give_up SawFollowing dev press_back)))

  switch_or_back-reach : Reaches SawFollowing (switch_or_back dev)
  unfolding switch_or_back
  switch_or_back-reach = Reaches-bind SawFollowing (shows dev switcher) _ (λ shown.
      Reaches-if SawFollowing shown _ _
        (Reaches-try_once SawFollowing (switch_feed dev) switch_feed-reach)
        (Reaches-give_up SawFollowing dev press_back))

  following_attempts-reach :
      (n : ℕ) (first : Bool) → Reaches SawFollowing (following_attempts dev n first)
  unfolding following_attempts
  following_attempts-reach zero first = Reaches-false SawFollowing
  following_attempts-reach (suc n) first = Reaches-bind SawFollowing (find_switcher dev 12) _ (λ _.
      Reaches-orelse SawFollowing _ (following_attempts dev n false)
        (Reaches-if SawFollowing first _ _
          (Reaches-bind SawFollowing (shows dev on_following) _ (λ there.
            Reaches-if SawFollowing there _ _ (Reaches-give_up SawFollowing dev press_back)
              switch_or_back-reach))
          (Reaches-orelse SawFollowing (shows dev on_following) (switch_or_back dev)
            (Reaches-shows SawFollowing dev on_following (λ t l. tt)) switch_or_back-reach))
        (following_attempts-reach n false))

  list_attempt-reach : Reaches SawList (list_attempt dev)
  unfolding list_attempt open_list
  list_attempt-reach = Reaches-bind SawList (shows dev on_list) _ (λ there.
      Reaches-if SawList there _ _
        (Reaches-bind SawList (act press_back) _ (λ _. Reaches-give_up SawList dev press_back))
        (Reaches-bind SawList (shows dev profile_tab) _ (λ tab.
          Reaches-if SawList tab _ _
            (Reaches-try_once SawList (open_list dev) (
              Reaches-bind SawList (act tap_profile) _ (λ _.
                Reaches-bind SawList (shows dev list_link) _ (λ link.
                  Reaches-if SawList link _ _
                    (Reaches-bind SawList (act tap_link) _
                      (λ _. Reaches-shows SawList dev on_list (λ t l. tt)))
                    (Reaches-give_up SawList dev press_back)))))
            (Reaches-give_up SawList dev press_back))))

  list_attempts-reach : (n : ℕ) → Reaches SawList (list_attempts dev n)
  unfolding list_attempts
  list_attempts-reach zero = Reaches-false SawList
  list_attempts-reach (suc n) =
      Reaches-orelse SawList (list_attempt dev) _ list_attempt-reach (list_attempts-reach n)

  -- Whatever the device shows and breaks, the openers of the Home feed, of the Following feed and of the
  -- Following list return True only if their very last look saw that screen.
  pub open_feeds-Arrives :
      (a : LoginSettings) (l : Log)
      → Arrives SawHome (open_home_feed dev a l)
        × Arrives SawFollowing (open_following_feed dev a l)
        × Arrives SawList (open_own_following_list dev a l)
  unfolding open_home_feed open_following_feed open_own_following_list
  open_feeds-Arrives a l = (
    (Reaches-bind SawHome (prepare_app dev a) _ (λ _. home_attempts-reach 4)).at l,
    (Reaches-bind SawFollowing (prepare_app dev a) _ (λ _. following_attempts-reach 4 true)).at l,
    (Reaches-bind SawList (prepare_app dev a) _ (λ _. list_attempts-reach 4)).at l,
  )
