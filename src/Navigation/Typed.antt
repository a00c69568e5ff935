-- ===== src/Navigation/Typed.antt =====
-- What logging in (app/instadroid/navigation.py) types: one password at most.
use instadroid.Prelude.{
  ℕ, zero, suc, ◌+◌, ◌≤◌, ◌≡◌, refl, ap, inl, inr, Bool, true, false, Option, none, some, is_some,
  [], ◌∷◌, arith, if◌then◌else◌, Text, Option-cases,
}
use instadroid.Navigation.Updating.{Plan, refuse, install}
use instadroid.Navigation.Driving.{
  Question, limited, challenge, update_wanted, in_front, stray_alert, welcome, login_form,
  login_page, is_listed, has_package, dismissable, login_button, Act, launch_app, install_app,
  tap_alert, tap_welcome, tap_dismiss, type_username, type_password, tap_login, press_enter,
  press_back, tap_home, swipe_down, tap_switcher, tap_following, tap_profile, tap_link, asked, did,
  Error, wants_human, not_ready, not_installed, update_refused, no_credentials, unknown_form,
  wrong_password, Device, M, Result, ok, fail, Log, after, ◌>>=◌, ◌>>◌, pure, fail_with, act, ask,
}
use instadroid.Navigation.Login.{
  LoginSettings, raise_if, check_restricted, raise_if_challenge, dismiss_one, dismiss_interstitials,
  or_false, package_present, ensure_installed, launch_attempts, launch_to_foreground,
  update_instagram, submitted, submit_login, tap_if, dismiss_alert, no_form, log_in,
  update_if_wanted, ensure_logged_in,
}

abbrev pub passwords : Log → ℕ
passwords [] = 0
passwords (asked q a ∷ l) = passwords l
passwords (did type_password ∷ l) = passwords l + 1
passwords (did launch_app ∷ l) = passwords l
passwords (did install_app ∷ l) = passwords l
passwords (did tap_alert ∷ l) = passwords l
passwords (did tap_welcome ∷ l) = passwords l
passwords (did tap_dismiss ∷ l) = passwords l
passwords (did type_username ∷ l) = passwords l
passwords (did tap_login ∷ l) = passwords l
passwords (did press_enter ∷ l) = passwords l
passwords (did press_back ∷ l) = passwords l
passwords (did tap_home ∷ l) = passwords l
passwords (did swipe_down ∷ l) = passwords l
passwords (did tap_switcher ∷ l) = passwords l
passwords (did tap_following ∷ l) = passwords l
passwords (did tap_profile ∷ l) = passwords l
passwords (did tap_link ∷ l) = passwords l

-- at most so many passwords are typed
unfoldable pub Adds : {A : Type 0} → ℕ → M A → Type 0
Adds n m = (l : Log) → passwords (m l).1 ≤ passwords l + n

after-Adds :
    {A B : Type 0} (n : ℕ) (r : Result A × Log) (f : A → M B)
    → ((a : A) → Adds n (f a))
    → passwords (after r f).1 ≤ passwords r.1 + n
unfolding Adds
after-Adds n (ok a, l) f k = k a l
after-Adds n (fail e, l) f k = omega arith

Adds-bind :
    {A B : Type 0} (n k : ℕ) (m : M A) (f : A → M B)
    → Adds n m
    → ((a : A) → Adds k (f a))
    → Adds (n + k) (m >>= f)
unfolding Adds
Adds-bind n k m f h g l = omega (arith, h l, after-Adds k (m l) f g)

Adds-if :
    {A : Type 0} (n : ℕ) (b : Bool) (m k : M A) → Adds n m → Adds n k → Adds n (if b then m else k)
unfolding Adds
Adds-if n true m k h g = h
Adds-if n false m k h g = g

Adds-pure : {A : Type 0} (n : ℕ) (a : A) → Adds n (pure a)
unfolding Adds
Adds-pure n a l = omega arith

Adds-fail_with : (A : Type 0) (n : ℕ) (e : Error) → Adds n (fail_with {A = A} e)
unfolding Adds
Adds-fail_with A n e l = omega arith

Adds-at_most : {A : Type 0} (n k : ℕ) (m : M A) → n ≤ k → Adds n m → Adds k m
unfolding Adds
Adds-at_most n k m h g l = omega (arith, g l)

Adds-act : (a : Act) → Adds (passwords (did a ∷ [])) (act a)
unfolding act Adds
Adds-act launch_app l = omega arith
Adds-act install_app l = omega arith
Adds-act tap_alert l = omega arith
Adds-act tap_welcome l = omega arith
Adds-act tap_dismiss l = omega arith
Adds-act type_username l = omega arith
Adds-act type_password l = omega arith
Adds-act tap_login l = omega arith
Adds-act press_enter l = omega arith
Adds-act press_back l = omega arith
Adds-act tap_home l = omega arith
Adds-act swipe_down l = omega arith
Adds-act tap_switcher l = omega arith
Adds-act tap_following l = omega arith
Adds-act tap_profile l = omega arith
Adds-act tap_link l = omega arith

unfoldable pub submitting : Option Text → Act
submitting button = if is_some button then tap_login else press_enter

submitting-passwords : (button : Option Text) → passwords (did (submitting button) ∷ []) ≡ 0
unfolding submitting
submitting-passwords none = refl
submitting-passwords (some t) = refl

-- one password, and none without credentials
unfoldable pub most : Bool → ℕ
most b = if b then 1 else 0

module _ (dev : Device) where
  Adds-ask : (q : Question) → Adds 0 (ask dev q)
  unfolding ask Adds
  Adds-ask q l = elim (Option-cases (dev q l)) [
    | inl e ↦ rw (e, ask) (omega arith)
    | inr (a, e) ↦ rw (e, ask) (omega arith)
  ]

  Adds-raise_if : (q : Question) → Adds 0 (raise_if dev q)
  unfolding raise_if
  Adds-raise_if q = Adds-bind 0 0 (ask dev q) _ (Adds-ask q) step
    where
      step :
          (shown : Option Text)
          → Adds 0 (elim shown [ none ↦ pure tt | some t ↦ fail_with (wants_human t) ])
      step none = Adds-pure 0 tt
      step (some t) = Adds-fail_with (Unit {0}) 0 (wants_human t)

  Adds-tap_if : (q : Question) (a : Act) → passwords (did a ∷ []) ≡ 0 → Adds 0 (tap_if dev q a)
  unfolding tap_if
  Adds-tap_if q a none_typed = Adds-bind 0 0 (ask dev q) _ (Adds-ask q) (λ shown.
      Adds-if 0 (is_some shown) _ _
        (Adds-at_most _ 0 (act a) (omega (arith, none_typed)) (Adds-act a)) (Adds-pure 0 tt))

  Adds-dismiss_one : Adds 0 (dismiss_one dev)
  unfolding dismiss_one check_restricted
  Adds-dismiss_one =
      Adds-bind 0 0 (raise_if dev limited) _ (Adds-raise_if limited)
        (λ _. Adds-bind 0 0 (ask dev dismissable) _ (Adds-ask dismissable) step)
    where
      step :
          (shown : Option Text)
          → Adds 0 (elim shown [ none ↦ pure false | some t ↦ (act tap_dismiss >> pure true) ])
      step none = Adds-pure 0 false
      step (some t) =
          Adds-bind 0 0 (act tap_dismiss) _ (Adds-act tap_dismiss) (λ _. Adds-pure 0 true)

  Adds-dismiss : (n : ℕ) → Adds 0 (dismiss_interstitials dev n)
  unfolding dismiss_interstitials
  Adds-dismiss zero = Adds-pure 0 tt
  Adds-dismiss (suc n) =
      Adds-bind 0 0 (dismiss_one dev) _ Adds-dismiss_one
        (λ more. Adds-if 0 more _ _ (Adds-dismiss n) (Adds-pure 0 tt))

  Adds-launch_attempts : (n : ℕ) → Adds 0 (launch_attempts dev n)
  unfolding launch_attempts
  Adds-launch_attempts zero = Adds-fail_with (Unit {0}) 0 not_ready
  Adds-launch_attempts (suc n) = Adds-bind 0 0 (ask dev in_front) _ (Adds-ask in_front) (λ front.
      Adds-if 0 (is_some front) _ _ (Adds-pure 0 tt)
        (Adds-bind 0 0 (act launch_app) _ (Adds-act launch_app) (λ _. Adds-launch_attempts n)))

  or_false-log : (r : Result (Option Text) × Log) → (or_false r).1 ≡ r.1
  or_false-log (ok a, l) = refl
  or_false-log (fail e, l) = refl

  Adds-package_present : Adds 0 (package_present dev)
  unfolding package_present Adds
  Adds-package_present l =
      omega (arith, ap passwords (or_false-log (ask dev has_package l)), Adds-ask has_package l)

  Adds-ensure_installed : (b : Bool) → Adds 0 (ensure_installed dev b)
  unfolding ensure_installed
  Adds-ensure_installed b = Adds-bind 0 0 (ask dev is_listed) _ (Adds-ask is_listed) (λ listed.
      Adds-bind 0 0 _ _ (Adds-if 0 (is_some listed) _ _ (Adds-pure 0 true) Adds-package_present)
        (λ present. Adds-if 0 present _ _ (Adds-pure 0 tt) (
          Adds-if 0 b _ _
            (Adds-bind 0 0 (act install_app) _ (Adds-act install_app) (λ _.
              Adds-bind 0 0 (ask dev is_listed) _ (Adds-ask is_listed) (λ now.
                Adds-if 0 (is_some now) _ _ (Adds-pure 0 tt)
                  (Adds-fail_with (Unit {0}) 0 not_ready))))
            (Adds-fail_with (Unit {0}) 0 not_installed))))

  Adds-update_instagram : (plan : Option Plan) → Adds 0 (update_instagram dev plan)
  unfolding update_instagram
  Adds-update_instagram none = Adds-fail_with (Unit {0}) 0 update_refused
  Adds-update_instagram (some (refuse b)) = Adds-fail_with (Unit {0}) 0 update_refused
  Adds-update_instagram (some (install target)) =
      Adds-bind 0 0 (act install_app) _ (Adds-act install_app) (λ _.
        Adds-bind 0 0 (act launch_app) _ (Adds-act launch_app) (λ _.
          Adds-bind 0 0 (ask dev in_front) _ (Adds-ask in_front) (λ front.
            Adds-if 0 (is_some front) _ _ (Adds-raise_if update_wanted)
              (Adds-fail_with (Unit {0}) 0 not_ready))))

  Adds-submitted : Adds 0 (submitted dev)
  unfolding submitted raise_if_challenge
  Adds-submitted = Adds-bind 0 0 (raise_if dev challenge) _ (Adds-raise_if challenge) (λ _.
      Adds-bind 0 0 (dismiss_interstitials dev 4) _ (Adds-dismiss 4) (λ _.
        Adds-bind 0 0 (ask dev login_form) _ (Adds-ask login_form) (λ form.
          Adds-if 0 (is_some form) _ _ (Adds-fail_with (Unit {0}) 0 wrong_password)
            (Adds-pure 0 tt))))

  Adds-submit_login : (b : Bool) → Adds (most b) (submit_login dev b)
  unfolding submit_login submitting most
  Adds-submit_login false = Adds-fail_with (Unit {0}) 0 no_credentials
  Adds-submit_login true = Adds-bind 0 1 (act type_username) _ (Adds-act type_username) (λ _.
      Adds-bind 1 0 (act type_password) _ (Adds-act type_password) (λ _.
        Adds-bind 0 0 (ask dev login_button) _ (Adds-ask login_button) (λ button.
          Adds-bind 0 0 (act (submitting button)) _
            (Adds-at_most _ 0 (act (submitting button)) (omega (arith, submitting-passwords button))
              (Adds-act (submitting button)))
            (λ _. Adds-submitted))))

  Adds-no_form : Adds 0 (no_form dev)
  unfolding no_form
  Adds-no_form = Adds-bind 0 0 (ask dev login_page) _ (Adds-ask login_page) (λ page.
      Adds-if 0 (is_some page) _ _ (Adds-fail_with (Unit {0}) 0 unknown_form) (
        Adds-bind 0 0 (ask dev in_front) _ (Adds-ask in_front) (λ front.
          Adds-if 0 (is_some front) _ _ (Adds-pure 0 tt) (Adds-fail_with (Unit {0}) 0 not_ready))))

  Adds-log_in : (b : Bool) → Adds (most b) (log_in dev b)
  unfolding log_in
  Adds-log_in b = Adds-at_most (0 + most b) (most b) (log_in dev b) (omega arith) (
      Adds-bind 0 (most b) (ask dev login_form) _ (Adds-ask login_form) (λ form.
        Adds-if (most b) (is_some form) _ _ (Adds-submit_login b)
          (Adds-at_most 0 (most b) (no_form dev) (omega arith) Adds-no_form)))

  -- what comes before the form types nothing
  quietly :
      {B : Type 0} (n : ℕ) (m : M (Unit {0})) (k : M B) → Adds 0 m → Adds n k → Adds n (m >> k)
  quietly n m k h g =
      Adds-at_most (0 + n) n (m >> k) (omega arith) (Adds-bind 0 n m (λ _. k) h (λ _. g))

  Adds-launch_to_foreground : Adds 0 (launch_to_foreground dev)
  unfolding launch_to_foreground
  Adds-launch_to_foreground =
      quietly 0 (act launch_app) _ (Adds-act launch_app) (Adds-launch_attempts 3)

  Adds-dismiss_alert : Adds 0 (dismiss_alert dev)
  unfolding dismiss_alert check_restricted
  Adds-dismiss_alert =
      quietly 0 (raise_if dev limited) _ (Adds-raise_if limited)
        (Adds-tap_if stray_alert tap_alert refl)

  Adds-update_if_wanted : (plan : Option Plan) → Adds 0 (update_if_wanted dev plan)
  unfolding update_if_wanted
  Adds-update_if_wanted plan =
      Adds-bind 0 0 (ask dev update_wanted) _ (Adds-ask update_wanted)
        (λ update. Adds-if 0 (is_some update) _ _ (Adds-update_instagram plan) (Adds-pure 0 tt))

  pub Adds-ensure_logged_in :
      (a : LoginSettings) → Adds (most a.has_credentials) (ensure_logged_in dev a)
  unfolding ensure_logged_in raise_if_challenge
  Adds-ensure_logged_in a =
      let n : ℕ = most a.has_credentials in
      quietly n (ensure_installed dev a.auto_install) _ (Adds-ensure_installed a.auto_install) (
        quietly n (launch_to_foreground dev) _ Adds-launch_to_foreground (
          quietly n (dismiss_alert dev) _ Adds-dismiss_alert (
            quietly n (raise_if dev challenge) _ (Adds-raise_if challenge) (
              quietly n (update_if_wanted dev a.plan) _ (Adds-update_if_wanted a.plan) (
                quietly n (tap_if dev welcome tap_welcome) _ (Adds-tap_if welcome tap_welcome refl)
                  (Adds-log_in a.has_credentials))))))
