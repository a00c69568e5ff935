-- ===== src/Navigation/LoggedIn.antt =====
-- What logging in (app/instadroid/navigation.py) comes to: one try at most, and a session that is live.
use instadroid.Prelude.{
  ◌≤◌, inl, inr, Bool, true, false, Option, none, some, is_some, [], ◌∷◌, arith, if◌then◌else◌,
  Text, Option-cases,
}
use instadroid.Navigation.Driving.{
  in_front, welcome, login_form, login_page, login_button, tap_welcome, type_username,
  type_password, asked, did, not_ready, unknown_form, Device, M, Result, ok, fail, Log, after,
  ◌>>=◌, pure, fail_with, act, ask,
}
use instadroid.Navigation.Login.{
  LoginSettings, raise_if_challenge, dismiss_interstitials, ensure_installed, launch_to_foreground,
  submitted, submit_login, tap_if, dismiss_alert, no_form, log_in, update_if_wanted,
  ensure_logged_in,
}
use instadroid.Navigation.Typed.{passwords, Adds, submitting, most, Adds-ensure_logged_in}

-- a run that ends well ends in a look that saw Instagram in front, or no login form any more
abbrev pub IsLive : Log → Type 0
IsLive (asked in_front (some t) ∷ l) = Unit
IsLive (asked login_form none ∷ l) = Unit
IsLive _ = ⊥

abbrev pub Ends : {A : Type 0} → Result A × Log → Type 0
Ends (ok a, l) = IsLive l
Ends (fail e, l) = Unit

Ends-after :
    {A B : Type 0} (r : Result A × Log) (f : A → M B)
    → ((a : A) (l : Log) → Ends (f a l))
    → Ends (after r f)
Ends-after (ok a, l) f k = k a l
Ends-after (fail e, l) f k = tt

module _ (dev : Device) where
  Ends-submitted : (l : Log) → Ends (submitted dev l)
  unfolding submitted ask
  Ends-submitted l = Ends-after (raise_if_challenge dev l) _ (λ _ l'.
      Ends-after (dismiss_interstitials dev 4 l') _ (λ _ l''.
        elim (Option-cases (dev login_form l'')) [
          | inl e ↦ rw (e, ask) tt
          | inr (none, e) ↦ rw (e, ask) tt
          | inr (some t, e) ↦ rw (e, ask) tt
        ]))

  Ends-submit_login : (b : Bool) (l : Log) → Ends (submit_login dev b l)
  unfolding submit_login act submitting
  Ends-submit_login false l = tt
  Ends-submit_login true l =
      Ends-after (ask dev login_button (did type_password ∷ did type_username ∷ l)) _
        (λ button l'. Ends-submitted (did (submitting button) ∷ l'))

  Ends-no_form : (l : Log) → Ends (no_form dev l)
  unfolding no_form ask
  Ends-no_form l = Ends-after (ask dev login_page l) _ step
    where
      step :
          (page : Option Text) (l' : Log)
          → Ends (
              (if is_some page
                  then fail_with unknown_form
                  else (ask dev in_front >>= λ front.
                      if is_some front then pure tt else fail_with not_ready))
                l')
      step none l' = elim (Option-cases (dev in_front l')) [
        | inl e ↦ rw (e, ask) tt
        | inr (none, e) ↦ rw (e, ask) tt
        | inr (some t, e) ↦ rw (e, ask) tt
      ]
      step (some t) l' = tt

  Ends-log_in : (b : Bool) (l : Log) → Ends (log_in dev b l)
  unfolding log_in
  Ends-log_in b l = Ends-after (ask dev login_form l) _ step
    where
      step :
          (form : Option Text) (l' : Log)
          → Ends ((if is_some form then submit_login dev b else no_form dev) l')
      step none l' = Ends-no_form l'
      step (some t) l' = Ends-submit_login b l'

  Ends-ensure_logged_in : (a : LoginSettings) (l : Log) → Ends (ensure_logged_in dev a l)
  unfolding ensure_logged_in
  Ends-ensure_logged_in a l = Ends-after (ensure_installed dev a.auto_install l) _ (λ _ l.
      Ends-after (launch_to_foreground dev l) _ (λ _ l. Ends-after (dismiss_alert dev l) _ (λ _ l.
        Ends-after (raise_if_challenge dev l) _ (λ _ l.
          Ends-after (update_if_wanted dev a.plan l) _ (λ _ l.
            Ends-after (tap_if dev welcome tap_welcome l) _
              (λ _ l. Ends-log_in a.has_credentials l))))))

  -- Whatever the device shows, logging in types a password at most once, and never without credentials;
  -- if it returns, its last look saw Instagram in front or no login form any more.
  pub ensure_logged_in-Ends :
      (a : LoginSettings)
      → (passwords (ensure_logged_in dev a []).1 ≤ (if a.has_credentials then 1 else 0))
        × Ends (ensure_logged_in dev a [])
  unfolding Adds most
  ensure_logged_in-Ends a =
      (omega (arith, Adds-ensure_logged_in dev a []), Ends-ensure_logged_in a [])
