-- ===== src/Navigation/Tests.antt =====
-- A short Following list, an update, and a phone that shows the login form.
use instadroid.Prelude.{
  ℕ, ◌≤◌, ◌≡◌, ◌⊎◌, refl, Bool, ◌||◌, true, false, none, some, List, [], ◌∷◌, if◌then◌else◌, Text,
  codes, text_eq, any, ltb, ◌==◌,
}
use instadroid.Navigation.Driving.{
  Device, Log, Act, did, asked, ok, is_listed, in_front, login_form, login_button, on_home,
  switcher, menu_entry, on_following, profile_tab, list_link, on_list, tap_following, tap_link, act,
  ask,
}
use instadroid.Navigation.Login.{
  LoginSettings, ensure_logged_in, ensure_installed, launch_to_foreground, launch_attempts,
  dismiss_alert, check_restricted, raise_if, raise_if_challenge, update_if_wanted, tap_if, log_in,
  no_form, dismiss_interstitials, dismiss_one,
}
use instadroid.Navigation.Kept.{IsCareful}
use instadroid.Navigation.Careful.{ensure_logged_in-IsCareful}
use instadroid.Navigation.Typed.{passwords}
use instadroid.Navigation.LoggedIn.{Ends, ensure_logged_in-Ends}
use instadroid.Navigation.Sheets.{
  close_sheets, back_to_feed, ensure_foreground, close_rounds, close_or_stop, is_closed,
}
use instadroid.Navigation.Backing.{IsInside, backs, close_sheets-back_to_feed-IsInside}
use instadroid.Navigation.Feeds.{
  open_home_feed, open_following_feed, open_own_following_list, prepare_app, home_attempts, shows,
  find_switcher, following_attempts, switch_or_back, switch_feed, open_menu, wait_until, open_list,
  list_attempt, list_attempts,
}
use instadroid.Navigation.Arrived.{Arrives, SawHome, SawFollowing, SawList, open_feeds-Arrives}
use mathlib.Core.List.{Memᴰ}
use instadroid.Feed.Cards.{is_empty}
use instadroid.Db.Following.{Following}
use instadroid.Profiles.Builds.{version_key, key_less, major_of}
use instadroid.Parsing.Identity.{or_empty}
use instadroid.Profiles.Choice.{
  Library, available, builds_of, load_number, newer_build, newest_build, newest_of, newer_of,
  if_newer, profile_number, insert_number, checked,
}
use instadroid.Navigation.Collecting.{scrape_following_list}
use instadroid.Navigation.Collected.{Lists, scrape_following_list-Lists}
use instadroid.Navigation.Updating.{is_latest, plan_for, update_plan, update_plan-IsNewer}

-- Instagram is installed and in front, with the form until a password is typed
abbrev phone : Device
phone is_listed l = some (some [])
phone in_front l = some (some [])
phone login_form l = some (if passwords l == 0 then some [] else none)
phone login_button l = some (some [])
phone _ l = some none

abbrev with_credentials : LoginSettings
with_credentials = record { auto_install = false; has_credentials = true; plan = none }

abbrev screens : ℕ → List Text
screens n = elim (ltb n 2) [ true ↦ codes "ann" ∷ codes "ben" ∷ [] | false ↦ [] ]

abbrev stored : Following
stored = record { stored = codes "ann" ∷ []; refreshed = some 100; pending = [] }

abbrev library : Library
library = record {
  dirs = record { name = codes "v424"; has_init = true } ∷ [];
  imported = λ n. some (record { major = 424; validated = codes "445.0.0.1.2" ∷ [] });
  lower = λ t. t;
}

scrape_following_list-Lists_example : Lists screens 2 9 (scrape_following_list 2 9 screens)
scrape_following_list-Lists_example = scrape_following_list-Lists 2 9 screens

update_plan-IsNewer_example :
    (true ≡ true)
    × (((is_latest library [] ≡ true) × (codes "450.0.0.50.77" ≡ codes "latest"))
        ⊎ ((is_empty [] ≡ true)
            × (key_less (version_key (codes "446.0.0.49.77")) (version_key (codes "450.0.0.50.77"))
                ≡ true)
            × ((some (codes "450.0.0.50.77") ≡ some (codes "450.0.0.50.77"))
                ⊎ Memᴰ (codes "450.0.0.50.77") (codes "445.0.0.1.2" ∷ []))))
unfolding builds_of available load_number major_of or_empty profile_number insert_number any checked
    update_plan plan_for is_latest newer_build newest_build newest_of newer_of if_newer key_less
    version_key is_empty text_eq
update_plan-IsNewer_example =
    update_plan-IsNewer library true [] (some (codes "450.0.0.50.77")) (codes "446.0.0.49.77") 446
      (codes "445.0.0.1.2" ∷ []) (codes "450.0.0.50.77") refl refl refl

ensure_logged_in-IsCareful_example :
    let dev : Device = phone in
    let a : LoginSettings = with_credentials in IsCareful (ensure_logged_in dev a []).1
ensure_logged_in-IsCareful_example = ensure_logged_in-IsCareful phone with_credentials

ensure_logged_in-Ends_example :
    let dev : Device = phone in
    let a : LoginSettings = with_credentials in
    (passwords (ensure_logged_in dev a []).1 ≤ (if a.has_credentials then 1 else 0))
    × Ends (ensure_logged_in dev a [])
ensure_logged_in-Ends_example = ensure_logged_in-Ends phone with_credentials

close_sheets-back_to_feed-IsInside_example :
    let dev : Device = phone in
    let n : ℕ = 2 in
    (IsInside (close_sheets dev n []).1 × (backs (close_sheets dev n []).1 ≤ n))
    × (IsInside (back_to_feed dev n []).1 × (backs (back_to_feed dev n []).1 ≤ n))
close_sheets-back_to_feed-IsInside_example = close_sheets-back_to_feed-IsInside phone 2

-- whether something was done
has_done : (Act → Bool) → Log → Bool
has_done is [] = false
has_done is (did a ∷ l) = is a || has_done is l
has_done is (asked q t ∷ l) = has_done is l

is_switch : Act → Bool
is_switch tap_following = true
is_switch _ = false

is_link : Act → Bool
is_link tap_link = true
is_link _ = false

-- logged in, on the Home feed, with its switcher and the way to the Following list
abbrev walking_phone : Device
unfolding has_done is_switch is_link
walking_phone is_listed l = some (some [])
walking_phone in_front l = some (some [])
walking_phone on_home l = some (some [])
walking_phone switcher l = some (some [])
walking_phone menu_entry l = some (some [])
walking_phone on_following l = some (if has_done is_switch l then some [] else none)
walking_phone profile_tab l = some (some [])
walking_phone list_link l = some (some [])
walking_phone on_list l = some (if has_done is_link l then some [] else none)
walking_phone _ l = some none

home_arrives : (open_home_feed walking_phone with_credentials []).0 ≡ ok true
unfolding open_home_feed open_following_feed open_own_following_list prepare_app home_attempts shows
    find_switcher following_attempts switch_or_back switch_feed open_menu wait_until open_list
    list_attempt list_attempts act ask ensure_logged_in ensure_installed launch_to_foreground
    launch_attempts dismiss_alert check_restricted raise_if raise_if_challenge update_if_wanted
    tap_if log_in no_form dismiss_interstitials dismiss_one ensure_foreground close_sheets
    close_rounds close_or_stop is_closed has_done is_switch is_link
home_arrives = refl

following_arrives : (open_following_feed walking_phone with_credentials []).0 ≡ ok true
unfolding open_home_feed open_following_feed open_own_following_list prepare_app home_attempts shows
    find_switcher following_attempts switch_or_back switch_feed open_menu wait_until open_list
    list_attempt list_attempts act ask ensure_logged_in ensure_installed launch_to_foreground
    launch_attempts dismiss_alert check_restricted raise_if raise_if_challenge update_if_wanted
    tap_if log_in no_form dismiss_interstitials dismiss_one ensure_foreground close_sheets
    close_rounds close_or_stop is_closed has_done is_switch is_link
following_arrives = refl

list_arrives : (open_own_following_list walking_phone with_credentials []).0 ≡ ok true
unfolding open_home_feed open_following_feed open_own_following_list prepare_app home_attempts shows
    find_switcher following_attempts switch_or_back switch_feed open_menu wait_until open_list
    list_attempt list_attempts act ask ensure_logged_in ensure_installed launch_to_foreground
    launch_attempts dismiss_alert check_restricted raise_if raise_if_challenge update_if_wanted
    tap_if log_in no_form dismiss_interstitials dismiss_one ensure_foreground close_sheets
    close_rounds close_or_stop is_closed has_done is_switch is_link
list_arrives = refl

open_feeds-Arrives_example :
    let dev : Device = walking_phone in
    let a : LoginSettings = with_credentials in
    let l : Log = [] in
    Arrives SawHome (open_home_feed dev a l)
    × Arrives SawFollowing (open_following_feed dev a l)
    × Arrives SawList (open_own_following_list dev a l)
open_feeds-Arrives_example = open_feeds-Arrives walking_phone with_credentials []
