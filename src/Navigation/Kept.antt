-- ===== src/Navigation/Kept.antt =====
-- A careful log of what app/instadroid/navigation.py does, and how the parts of a call keep it so.
use instadroid.Prelude.{
  ◌≡◌, inl, inr, Bool, true, false, none, some, [], ◌∷◌, if◌then◌else◌, Option-cases,
}
use instadroid.Navigation.Driving.{
  Question, limited, challenge, stray_alert, welcome, login_form, dismissable, login_button, Act,
  launch_app, install_app, tap_alert, tap_welcome, tap_dismiss, type_username, type_password,
  tap_login, press_enter, asked, did, Error, Device, M, Result, ok, fail, Log, after, ◌>>=◌, pure,
  fail_with, ask,
}
use instadroid.Navigation.Login.{raise_if}

-- the screens that are for a person
abbrev pub is_alarm : Question → Bool
is_alarm limited = true
is_alarm challenge = true
is_alarm _ = false

-- no such screen was seen last
abbrev pub IsQuiet : Log → Type 0
IsQuiet [] = Unit
IsQuiet (did a ∷ l) = Unit
IsQuiet (asked q none ∷ l) = Unit
IsQuiet (asked q (some t) ∷ l) = is_alarm q ≡ false

-- what has to be on screen for a tap, and to be checked before it
abbrev pub Allowed : Act → Log → Type 0
Allowed tap_dismiss (asked dismissable (some t) ∷ asked limited none ∷ l) = Unit
Allowed tap_alert (asked stray_alert (some t) ∷ asked limited none ∷ l) = Unit
Allowed tap_welcome (asked welcome (some t) ∷ l) = Unit
Allowed type_username (asked login_form (some t) ∷ l) = Unit
Allowed type_password (did type_username ∷ l) = Unit
Allowed tap_login (asked login_button (some t) ∷ did type_password ∷ l) = Unit
Allowed press_enter (asked login_button none ∷ did type_password ∷ l) = Unit
Allowed launch_app l = Unit
Allowed install_app l = Unit
Allowed _ _ = ⊥

abbrev pub IsCareful : Log → Type 0
IsCareful [] = Unit
IsCareful (asked q a ∷ l) = IsQuiet l × IsCareful l
IsCareful (did a ∷ l) = IsQuiet l × Allowed a l × IsCareful l

abbrev pub IsGood : Log → Type 0
IsGood l = IsQuiet l × IsCareful l

abbrev pub IsKept : {A : Type 0} → Result A × Log → Type 0
IsKept (ok a, l) = IsGood l
IsKept (fail e, l) = IsCareful l

-- from a good log to one, or to a careful one where it raises
abbrev pub Keeps : {A : Type 0} → M A → Type 0
Keeps m = (l : Log) → IsGood l → IsKept (m l)

pub IsKept-after :
    {A B : Type 0} (r : Result A × Log) (f : A → M B)
    → IsKept r
    → ((a : A) → Keeps (f a))
    → IsKept (after r f)
IsKept-after (ok a, l) f h k = k a l h
IsKept-after (fail e, l) f h k = h

pub Keeps-bind :
    {A B : Type 0} (m : M A) (f : A → M B) → Keeps m → ((a : A) → Keeps (f a)) → Keeps (m >>= f)
Keeps-bind m f h k l g = IsKept-after (m l) f (h l g) k

pub Keeps-if : {A : Type 0} (b : Bool) (m n : M A) → Keeps m → Keeps n → Keeps (if b then m else n)
Keeps-if true m n h k = h
Keeps-if false m n h k = k

pub Keeps-pure : {A : Type 0} (a : A) → Keeps (pure a)
Keeps-pure a l g = g

pub Keeps-fail_with : (A : Type 0) (e : Error) → Keeps (fail_with {A = A} e)
Keeps-fail_with A e l g = g.1

module _ (dev : Device) where
  pub Keeps-ask : (q : Question) → is_alarm q ≡ false → Keeps (ask dev q)
  unfolding ask
  Keeps-ask q calm l (quiet, careful) = elim (Option-cases (dev q l)) [
    | inl e ↦ rw (e, ask) careful
    | inr (none, e) ↦ rw (e, ask) (tt, (quiet, careful))
    | inr (some t, e) ↦ rw (e, ask) (calm, (quiet, careful))
  ]

  -- after a look that raises if anything is shown, nothing was
  pub Keeps-raise_if : (q : Question) → Keeps (raise_if dev q)
  unfolding raise_if ask
  Keeps-raise_if q l (quiet, careful) = elim (Option-cases (dev q l)) [
    | inl e ↦ rw (e, ask) careful
    | inr (none, e) ↦ rw (e, ask) (tt, (quiet, careful))
    | inr (some t, e) ↦ rw (e, ask) (quiet, careful)
  ]
