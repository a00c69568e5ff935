-- ===== src/Navigation/Feeds.antt =====
-- _prepare_app() and the openers of app/instadroid/navigation.py: the Following and Home feeds and the own
-- Following list. An attempt that the device breaks is over, and the next one begins.
use instadroid.Prelude.{ℕ, zero, suc, Bool, true, false, is_some, if◌then◌else◌}
use instadroid.Navigation.Driving.{
  Question, on_home, home_tab, on_following, switcher, menu_entry, on_list, profile_tab, list_link,
  Act, press_back, tap_home, swipe_down, tap_switcher, tap_following, tap_profile, tap_link, Device,
  M, Result, ok, fail, Log, ◌>>=◌, ◌>>◌, pure, act, ask,
}
use instadroid.Navigation.Login.{LoginSettings, ensure_logged_in, dismiss_interstitials}
use instadroid.Navigation.Sheets.{ensure_foreground, close_sheets}

-- `try`: an exception counts as a failed attempt
abbrev pub caught : Result Bool × Log → Result Bool × Log
caught (ok done, l) = (ok done, l)
caught (fail e, l) = (ok false, l)

abbrev pub try_once : M Bool → M Bool
try_once m l = caught (m l)

-- the second action, if the first did not get there
abbrev pub otherwise : Result Bool × Log → M Bool → Result Bool × Log
otherwise (ok true, l) next = (ok true, l)
otherwise (ok false, l) next = next l
otherwise (fail e, l) next = (fail e, l)

infixl 5 ◌orelse◌
abbrev pub ◌orelse◌ : M Bool → M Bool → M Bool
◌orelse◌ m next l = otherwise (m l) next

module _ (dev : Device) where
  unfoldable pub prepare_app : LoginSettings → M (Unit {0})
  prepare_app a = do
    ensure_logged_in dev a
    launched ← ensure_foreground dev
    dismiss_interstitials dev 4
    closed ← close_sheets dev 2
    pure tt

  unfoldable pub shows : Question → M Bool
  shows q = do shown ← ask dev q; pure (is_some shown)

  -- _wait_until()
  unfoldable pub wait_until : ℕ → Question → M Bool
  wait_until zero q = pure false
  wait_until (suc n) q = shows q orelse wait_until n q

  unfoldable pub give_up : Act → M Bool
  give_up a = do act a; pure false

  unfoldable pub tap_home_tab : M Bool
  tap_home_tab = do act tap_home; wait_until 6 on_home

  -- the attempts of open_home_feed() that are left
  unfoldable pub home_attempts : ℕ → M Bool
  home_attempts zero = pure false
  home_attempts (suc n) =
      shows on_home
      orelse (do tab ← shows home_tab; if tab then try_once tap_home_tab else give_up press_back)
      orelse home_attempts n

  unfoldable pub open_home_feed : LoginSettings → M Bool
  open_home_feed a = do prepare_app a; home_attempts 4

  -- back to the top, until the switcher shows
  unfoldable pub find_switcher : ℕ → M Bool
  find_switcher zero = pure false
  find_switcher (suc n) =
      shows switcher orelse shows on_following orelse (do act swipe_down; find_switcher n)

  -- taps on the switcher until its menu opens
  unfoldable pub open_menu : ℕ → M Bool
  open_menu zero = pure false
  open_menu (suc n) = do act tap_switcher; shows menu_entry orelse open_menu n

  unfoldable pub switch_feed : M Bool
  switch_feed = do
    opened ← open_menu 4
    entry ← shows menu_entry
    if entry then (do act tap_following; wait_until 6 on_following) else give_up press_back

  unfoldable pub switch_or_back : M Bool
  switch_or_back = do
    shown ← shows switcher
    if shown then try_once switch_feed else give_up press_back

  -- The attempts of open_following_feed() that are left, the first one of all among them or not: a feed
  -- that was open before it is left and entered again.
  unfoldable pub following_attempts : ℕ → Bool → M Bool
  following_attempts zero first = pure false
  following_attempts (suc n) first = do
    found ← find_switcher 12
    (if first
          then (do there ← shows on_following; if there then give_up press_back else switch_or_back)
          else (shows on_following orelse switch_or_back))
        orelse following_attempts n false

  unfoldable pub open_following_feed : LoginSettings → M Bool
  open_following_feed a = do prepare_app a; following_attempts 4 true

  unfoldable pub open_list : M Bool
  open_list = do
    act tap_profile
    link ← shows list_link
    if link then (do act tap_link; shows on_list) else give_up press_back

  -- an attempt of open_own_following_list(): a list that is open already is left
  unfoldable pub list_attempt : M Bool
  list_attempt = do
    there ← shows on_list
    if there
        then (do act press_back; give_up press_back)
        else (do tab ← shows profile_tab; if tab then try_once open_list else give_up press_back)

  unfoldable pub list_attempts : ℕ → M Bool
  list_attempts zero = pure false
  list_attempts (suc n) = list_attempt orelse list_attempts n

  unfoldable pub open_own_following_list : LoginSettings → M Bool
  open_own_following_list a = do prepare_app a; list_attempts 4

  -- open_target_feed(): FEED_MODE is "home" or not, and what the opener returns is dropped
  unfoldable pub open_target_feed : Bool → LoginSettings → M (Unit {0})
  open_target_feed home a = do
    arrived ← (if home then open_home_feed a else open_following_feed a)
    pure tt
