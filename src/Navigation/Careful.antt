-- ===== src/Navigation/Careful.antt =====
-- What logging in (app/instadroid/navigation.py) never does to an account.
use instadroid.Prelude.{
  ℕ, zero, suc, refl, inl, inr, Bool, true, false, Option, none, some, is_some, [], ◌∷◌, Text,
  Option-cases,
}
use instadroid.Navigation.Updating.{Plan, refuse, install}
use instadroid.Navigation.Driving.{
  limited, challenge, update_wanted, in_front, stray_alert, welcome, login_form, login_page,
  is_listed, has_package, dismissable, login_button, launch_app, install_app, tap_welcome,
  type_username, type_password, tap_login, press_enter, asked, did, not_ready, not_installed,
  update_refused, unknown_form, wrong_password, Device, Result, ok, fail, Log, act, ask,
}
use instadroid.Navigation.Login.{
  LoginSettings, raise_if, check_restricted, raise_if_challenge, dismiss_one, dismiss_interstitials,
  package_present, ensure_installed, launch_attempts, launch_to_foreground, update_instagram,
  submitted, submit_login, tap_if, dismiss_alert, no_form, log_in, update_if_wanted,
  ensure_logged_in,
}
use instadroid.Navigation.Kept.{
  IsCareful, IsGood, IsKept, Keeps, Keeps-bind, Keeps-if, Keeps-pure, Keeps-fail_with, Keeps-ask,
  Keeps-raise_if,
}

module _ (dev : Device) where
  Keeps-dismiss_one : Keeps (dismiss_one dev)
  unfolding dismiss_one check_restricted raise_if ask act
  Keeps-dismiss_one l (quiet, careful) = elim (Option-cases (dev limited l)) [
    | inl e ↦ rw (e, ask) careful
    | inr (some t, e) ↦ rw (e, ask) (quiet, careful)
    | inr (none, e) ↦
        rw (e, ask)
          (elim (Option-cases (dev dismissable (asked limited none ∷ l))) [
            | inl e' ↦ rw (e', ask) (quiet, careful)
            | inr (none, e') ↦ rw (e', ask) (tt, (tt, (quiet, careful)))
            | inr (some t, e') ↦ rw (e', ask) (tt, (refl, tt, (tt, (quiet, careful))))
          ])
  ]

  Keeps-dismiss_alert : Keeps (dismiss_alert dev)
  unfolding dismiss_alert tap_if check_restricted raise_if ask act
  Keeps-dismiss_alert l (quiet, careful) = elim (Option-cases (dev limited l)) [
    | inl e ↦ rw (e, ask) careful
    | inr (some t, e) ↦ rw (e, ask) (quiet, careful)
    | inr (none, e) ↦
        rw (e, ask)
          (elim (Option-cases (dev stray_alert (asked limited none ∷ l))) [
            | inl e' ↦ rw (e', ask) (quiet, careful)
            | inr (none, e') ↦ rw (e', ask) (tt, (tt, (quiet, careful)))
            | inr (some t, e') ↦ rw (e', ask) (tt, (refl, tt, (tt, (quiet, careful))))
          ])
  ]

  Keeps-tap_welcome : Keeps (tap_if dev welcome tap_welcome)
  unfolding tap_if ask act
  Keeps-tap_welcome l (quiet, careful) = elim (Option-cases (dev welcome l)) [
    | inl e ↦ rw (e, ask) careful
    | inr (none, e) ↦ rw (e, ask) (tt, (quiet, careful))
    | inr (some t, e) ↦ rw (e, ask) (tt, (refl, tt, (quiet, careful)))
  ]

  Keeps-dismiss : (n : ℕ) → Keeps (dismiss_interstitials dev n)
  unfolding dismiss_interstitials
  Keeps-dismiss zero = Keeps-pure tt
  Keeps-dismiss (suc n) =
      Keeps-bind (dismiss_one dev) _ Keeps-dismiss_one
        (λ more. Keeps-if more _ _ (Keeps-dismiss n) (Keeps-pure tt))

  Keeps-launch : Keeps (act launch_app)
  unfolding act
  Keeps-launch l (quiet, careful) = (tt, (quiet, tt, careful))

  Keeps-install : Keeps (act install_app)
  unfolding act
  Keeps-install l (quiet, careful) = (tt, (quiet, tt, careful))

  Keeps-launch_attempts : (n : ℕ) → Keeps (launch_attempts dev n)
  unfolding launch_attempts
  Keeps-launch_attempts zero = Keeps-fail_with (Unit {0}) not_ready
  Keeps-launch_attempts (suc n) =
      Keeps-bind (ask dev in_front) _ (Keeps-ask dev in_front refl) (λ front.
        Keeps-if (is_some front) _ _ (Keeps-pure tt)
          (Keeps-bind (act launch_app) _ Keeps-launch (λ _. Keeps-launch_attempts n)))

  Keeps-package_present : Keeps (package_present dev)
  unfolding package_present ask
  Keeps-package_present l (quiet, careful) = elim (Option-cases (dev has_package l)) [
    | inl e ↦ rw (e, ask) (quiet, careful)
    | inr (none, e) ↦ rw (e, ask) (tt, (quiet, careful))
    | inr (some t, e) ↦ rw (e, ask) (refl, (quiet, careful))
  ]

  Keeps-ensure_installed : (b : Bool) → Keeps (ensure_installed dev b)
  unfolding ensure_installed
  Keeps-ensure_installed b =
      Keeps-bind (ask dev is_listed) _ (Keeps-ask dev is_listed refl) (λ listed.
        Keeps-bind _ _ (Keeps-if (is_some listed) _ _ (Keeps-pure true) Keeps-package_present)
          (λ present. Keeps-if present _ _ (Keeps-pure tt) (
            Keeps-if b _ _
              (Keeps-bind (act install_app) _ Keeps-install (λ _.
                Keeps-bind (ask dev is_listed) _ (Keeps-ask dev is_listed refl) (λ now.
                  Keeps-if (is_some now) _ _ (Keeps-pure tt)
                    (Keeps-fail_with (Unit {0}) not_ready))))
              (Keeps-fail_with (Unit {0}) not_installed))))

  Keeps-update_instagram : (plan : Option Plan) → Keeps (update_instagram dev plan)
  unfolding update_instagram
  Keeps-update_instagram none = Keeps-fail_with (Unit {0}) update_refused
  Keeps-update_instagram (some (refuse b)) = Keeps-fail_with (Unit {0}) update_refused
  Keeps-update_instagram (some (install target)) =
      Keeps-bind (act install_app) _ Keeps-install (λ _.
        Keeps-bind (act launch_app) _ Keeps-launch (λ _.
          Keeps-bind (ask dev in_front) _ (Keeps-ask dev in_front refl) (λ front.
            Keeps-if (is_some front) _ _ (Keeps-raise_if dev update_wanted)
              (Keeps-fail_with (Unit {0}) not_ready))))

  Keeps-update_if_wanted : (plan : Option Plan) → Keeps (update_if_wanted dev plan)
  unfolding update_if_wanted
  Keeps-update_if_wanted plan =
      Keeps-bind (ask dev update_wanted) _ (Keeps-ask dev update_wanted refl)
        (λ update. Keeps-if (is_some update) _ _ (Keeps-update_instagram plan) (Keeps-pure tt))

  Keeps-submitted : Keeps (submitted dev)
  unfolding submitted raise_if_challenge
  Keeps-submitted = Keeps-bind (raise_if dev challenge) _ (Keeps-raise_if dev challenge) (λ _.
      Keeps-bind (dismiss_interstitials dev 4) _ (Keeps-dismiss 4) (λ _.
        Keeps-bind (ask dev login_form) _ (Keeps-ask dev login_form refl) (λ form.
          Keeps-if (is_some form) _ _ (Keeps-fail_with (Unit {0}) wrong_password) (Keeps-pure tt))))

  -- with the form on screen
  IsKept-submit_login :
      (b : Bool) (t : Text) (l : Log)
      → IsGood (asked login_form (some t) ∷ l)
      → IsKept (submit_login dev b (asked login_form (some t) ∷ l))
  unfolding submit_login ask act
  IsKept-submit_login false t l (quiet, careful) = careful
  IsKept-submit_login true t l (quiet, careful) =
      let typed : Log = did type_password ∷ did type_username ∷ asked login_form (some t) ∷ l in
      let good : IsCareful typed = (tt, tt, (quiet, tt, careful)) in
      elim (Option-cases (dev login_button typed)) [
        | inl e ↦ rw (e, ask) good
        | inr (none, e) ↦
            rw (e, ask)
              (Keeps-submitted (did press_enter ∷ asked login_button none ∷ typed)
                (tt, (tt, tt, (tt, good))))
        | inr (some u, e) ↦
            rw (e, ask)
              (Keeps-submitted (did tap_login ∷ asked login_button (some u) ∷ typed)
                (tt, (refl, tt, (tt, good))))
      ]

  Keeps-no_form : Keeps (no_form dev)
  unfolding no_form
  Keeps-no_form = Keeps-bind (ask dev login_page) _ (Keeps-ask dev login_page refl) (λ page.
      Keeps-if (is_some page) _ _ (Keeps-fail_with (Unit {0}) unknown_form) (
        Keeps-bind (ask dev in_front) _ (Keeps-ask dev in_front refl) (λ front.
          Keeps-if (is_some front) _ _ (Keeps-pure tt) (Keeps-fail_with (Unit {0}) not_ready))))

  Keeps-log_in : (b : Bool) → Keeps (log_in dev b)
  unfolding log_in ask
  Keeps-log_in b l (quiet, careful) = elim (Option-cases (dev login_form l)) [
    | inl e ↦ rw (e, ask) careful
    | inr (none, e) ↦ rw (e, ask) (Keeps-no_form (asked login_form none ∷ l) (tt, (quiet, careful)))
    | inr (some t, e) ↦ rw (e, ask) (IsKept-submit_login b t l (refl, (quiet, careful)))
  ]

  Keeps-ensure_logged_in : (a : LoginSettings) → Keeps (ensure_logged_in dev a)
  unfolding ensure_logged_in raise_if_challenge launch_to_foreground
  Keeps-ensure_logged_in a =
      Keeps-bind (ensure_installed dev a.auto_install) _ (Keeps-ensure_installed a.auto_install)
        (λ _.
          Keeps-bind (launch_to_foreground dev) _
            (Keeps-bind (act launch_app) _ Keeps-launch (λ _. Keeps-launch_attempts 3))
            (λ _. Keeps-bind (dismiss_alert dev) _ Keeps-dismiss_alert (λ _.
              Keeps-bind (raise_if dev challenge) _ (Keeps-raise_if dev challenge) (λ _.
                Keeps-bind (update_if_wanted dev a.plan) _ (Keeps-update_if_wanted a.plan) (λ _.
                  Keeps-bind (tap_if dev welcome tap_welcome) _ Keeps-tap_welcome
                    (λ _. Keeps-log_in a.has_credentials))))))

  IsKept→IsCareful : {A : Type 0} (r : Result A × Log) → IsKept r → IsCareful r.1
  IsKept→IsCareful (ok a, l) h = h.1
  IsKept→IsCareful (fail e, l) h = h

  -- Whatever the device shows, logging in goes on with nothing once it saw a screen that restricts the
  -- account or challenges it, dismisses an alert or a prompt only where a look just before saw no
  -- restriction, types a name only into a login form that it just saw, a password only behind a name, and
  -- submits only behind a password.
  pub ensure_logged_in-IsCareful : (a : LoginSettings) → IsCareful (ensure_logged_in dev a []).1
  ensure_logged_in-IsCareful a =
      IsKept→IsCareful (ensure_logged_in dev a []) (Keeps-ensure_logged_in a [] (tt, tt))
