-- ===== src/Navigation/Login.antt =====
-- ensure_logged_in() of app/instadroid/navigation.py and what it calls. The plan of an update is
-- update_plan() of Updating; installing is one action.
use instadroid.Prelude.{
  ℕ, zero, suc, Bool, true, false, Option, none, some, is_some, if◌then◌else◌, Text,
}
use instadroid.Navigation.Updating.{Plan, refuse, install}
use instadroid.Navigation.Driving.{
  Question, Act, limited, challenge, update_wanted, in_front, stray_alert, welcome, login_form,
  login_page, is_listed, has_package, dismissable, login_button, launch_app, install_app, tap_alert,
  tap_welcome, tap_dismiss, type_username, type_password, tap_login, press_enter, wants_human,
  update_refused, not_installed, no_credentials, unknown_form, wrong_password, not_ready, Device, M,
  Result, ok, fail, Log, ◌>>=◌, ◌>>◌, pure, fail_with, act, ask,
}

-- IG_AUTO_INSTALL, whether IG_USERNAME and IG_PASSWORD are set, and the update planned, if it is: none
-- where planning it raises.
pub record LoginSettings : Type 0 where
  pub auto_install : Bool
  pub has_credentials : Bool
  pub plan : Option Plan

abbrev pub or_false : Result (Option Text) × Log → Result Bool × Log
or_false (ok found, l) = (ok (is_some found), l)
or_false (fail e, l) = (ok false, l)

module _ (dev : Device) where
  -- raises with what is shown, if anything is
  unfoldable pub raise_if : Question → M (Unit {0})
  raise_if q = do
    shown ← ask dev q
    elim shown [ none ↦ pure tt | some t ↦ fail_with (wants_human t) ]

  unfoldable pub check_restricted : M (Unit {0})
  unfolding raise_if
  check_restricted = raise_if limited

  -- _raise_if_challenge()
  unfoldable pub raise_if_challenge : M (Unit {0})
  unfolding raise_if
  raise_if_challenge = raise_if challenge

  -- one round of _dismiss_interstitials(): whether there was something to dismiss
  unfoldable pub dismiss_one : M Bool
  unfolding check_restricted
  dismiss_one = do
    check_restricted
    button ← ask dev dismissable
    elim button [ none ↦ pure false | some t ↦ (act tap_dismiss >> pure true) ]

  unfoldable pub dismiss_interstitials : ℕ → M (Unit {0})
  dismiss_interstitials zero = pure tt
  dismiss_interstitials (suc rounds) = do
    more ← dismiss_one
    if more then dismiss_interstitials rounds else pure tt

  -- _package_present(): a look that raises counts as no
  unfoldable pub package_present : M Bool
  package_present l = or_false (ask dev has_package l)

  unfoldable pub ensure_installed : Bool → M (Unit {0})
  ensure_installed auto_install = do
    listed ← ask dev is_listed
    present ← (if is_some listed then pure true else package_present)
    if present
        then pure tt
        else if auto_install
        then (do
          act install_app
          now ← ask dev is_listed
          if is_some now then pure tt else fail_with not_ready)
        else fail_with not_installed

  -- the attempts of _launch_to_foreground()
  unfoldable pub launch_attempts : ℕ → M (Unit {0})
  launch_attempts zero = fail_with not_ready
  launch_attempts (suc n) = do
    front ← ask dev in_front
    if is_some front then pure tt else (act launch_app >> launch_attempts n)

  unfoldable pub launch_to_foreground : M (Unit {0})
  launch_to_foreground = do act launch_app; launch_attempts 3

  -- _update_instagram(), from the plan on
  unfoldable pub update_instagram : Option Plan → M (Unit {0})
  update_instagram none = fail_with update_refused
  update_instagram (some (refuse b)) = fail_with update_refused
  update_instagram (some (install target)) = do
    act install_app
    act launch_app
    front ← ask dev in_front
    if is_some front then raise_if update_wanted else fail_with not_ready

  -- _submit_login() from the submission on
  unfoldable pub submitted : M (Unit {0})
  submitted = do
    raise_if_challenge
    dismiss_interstitials 4
    form ← ask dev login_form
    if is_some form then fail_with wrong_password else pure tt

  -- _submit_login()
  unfoldable pub submit_login : Bool → M (Unit {0})
  submit_login has_credentials =
      if has_credentials
      then (do
        act type_username
        act type_password
        button ← ask dev login_button
        act (if is_some button then tap_login else press_enter)
        submitted)
      else fail_with no_credentials

  -- tap what is shown, if it is
  unfoldable pub tap_if : Question → Act → M (Unit {0})
  tap_if q a = do shown ← ask dev q; if is_some shown then act a else pure tt

  -- the stray alert's OK, once no restriction is showing
  unfoldable pub dismiss_alert : M (Unit {0})
  dismiss_alert = do check_restricted; tap_if stray_alert tap_alert

  -- no form: a session that is live, if Instagram is still up
  unfoldable pub no_form : M (Unit {0})
  no_form = do
    page ← ask dev login_page
    if is_some page
        then fail_with unknown_form
        else (do front ← ask dev in_front; if is_some front then pure tt else fail_with not_ready)

  -- the end of ensure_logged_in(), from the form on
  unfoldable pub log_in : Bool → M (Unit {0})
  log_in has_credentials = do
    form ← ask dev login_form
    if is_some form then submit_login has_credentials else no_form

  unfoldable pub update_if_wanted : Option Plan → M (Unit {0})
  update_if_wanted plan = do
    update ← ask dev update_wanted
    if is_some update then update_instagram plan else pure tt

  unfoldable pub ensure_logged_in : LoginSettings → M (Unit {0})
  ensure_logged_in a = do
    ensure_installed a.auto_install
    launch_to_foreground
    dismiss_alert
    raise_if_challenge
    update_if_wanted a.plan
    tap_if welcome tap_welcome
    log_in a.has_credentials
