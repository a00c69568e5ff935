-- ===== src/Navigation/Driving.antt =====
-- Driving the device: what app/instadroid/navigation.py asks of the screen and does to it. A device
-- answers by all that was asked and done before, so the screen may change between any two looks; an
-- action that raises shows as the next question raising. The log has its newest event first. No profile
-- overrides a function, and pauses and debug dumps are left out.
use instadroid.Prelude.{Option, none, some, List, ◌∷◌, Text}

-- What a look at the screen is for: restriction_text(), _challenge_present(), _update_required(),
-- in_foreground(), the selectors of ensure_logged_in(), app_list() and `pm path`, dismiss_texts, the
-- login button, _sheet_open(), on_feed() and on_home_feed(), and the screens and buttons on the way to a
-- feed and to the Following list.
pub data Question : Type 0 where
  limited : Question
  challenge : Question
  update_wanted : Question
  in_front : Question
  stray_alert : Question
  welcome : Question
  login_form : Question
  login_page : Question
  is_listed : Question
  has_package : Question
  dismissable : Question
  login_button : Question
  sheet_open : Question
  on_feed : Question
  on_home : Question
  home_tab : Question
  on_following : Question
  switcher : Question
  menu_entry : Question
  on_list : Question
  profile_tab : Question
  list_link : Question

pub data Act : Type 0 where
  launch_app : Act
  install_app : Act
  tap_alert : Act
  tap_welcome : Act
  tap_dismiss : Act
  type_username : Act
  type_password : Act
  tap_login : Act
  press_enter : Act
  press_back : Act
  tap_home : Act
  swipe_down : Act
  tap_switcher : Act
  tap_following : Act
  tap_profile : Act
  tap_link : Act

-- none where nothing of the kind is on screen
pub data Event : Type 0 where
  asked : Question → Option Text → Event
  did : Act → Event

abbrev pub Log : Type 0
Log = List Event

pub data Error : Type 0 where
  wants_human : Text → Error
  update_refused : Error
  not_installed : Error
  no_credentials : Error
  unknown_form : Error
  wrong_password : Error
  not_ready : Error
  device_error : Error

pub data Result (A : Type 0) : Type 0 where
  ok : A → Result A
  fail : Error → Result A

-- none where the look raises
abbrev pub Device : Type 0
Device = Question → Log → Option (Option Text)

abbrev pub M : Type 0 → Type 0
M A = Log → Result A × Log

abbrev pub after : {A B : Type 0} → Result A × Log → (A → M B) → Result B × Log
after (ok a, l) f = f a l
after (fail e, l) f = (fail e, l)

infixl 5 ◌>>=◌ ◌>>◌
abbrev pub ◌>>=◌ : {A B : Type 0} → M A → (A → M B) → M B
◌>>=◌ m f l = after (m l) f

abbrev pub ◌>>◌ : {B : Type 0} → M (Unit {0}) → M B → M B
m >> k = m >>= λ _. k

abbrev pub pure : {A : Type 0} → A → M A
pure a l = (ok a, l)

abbrev pub fail_with : {A : Type 0} → Error → M A
fail_with e l = (fail e, l)

unfoldable pub act : Act → M (Unit {0})
act a l = (ok tt, did a ∷ l)

unfoldable pub ask : Device → Question → M (Option Text)
ask dev q l = elim (dev q l) [ none ↦ (fail device_error, l) | some a ↦ (ok a, asked q a ∷ l) ]
