-- ===== src/Alerts/Conditions.antt =====
-- needs_human() and conditions() of app/instadroid/alerts.py. A condition is its kind and its message;
-- the wording of the messages, and _newer_validated()'s answer, are parameters. A NULL or unreadable
-- time is none, and ISO texts are taken in the order of their times.
use instadroid.Prelude.{
  ℕ, ◌-◌, min, max, Bool, true, false, ◌&&◌, ◌||◌, Option, none, some, List, [], ◌∷◌, ◌++◌, leb,
  ltb, if◌then◌else◌, Text, codes, starts_with, any, all, length, map, take,
}
use instadroid.Db.Posts.{StoredPost, truthy}
use instadroid.Db.Runs.{Run}
use instadroid.Db.Renames.{Tables, rename_candidates}

abbrev pub login : Text
login = codes "login"

abbrev pub restricted : Text
restricted = codes "restricted"

abbrev pub failing : Text
failing = codes "failing"

abbrev pub no_posts : Text
no_posts = codes "no_posts"

abbrev pub rename : Text
rename = codes "rename"

abbrev pub following : Text
following = codes "following"

abbrev pub newer_build : Text
newer_build = codes "newer_build"

abbrev pub restriction : Text
restriction = codes "restricted the account"

-- _NEEDS_HUMAN
abbrev pub markers : List Text
markers =
    restriction
    ∷ codes "wants a human"
    ∷ codes "login page shown"
    ∷ codes "login screen shown"
    ∷ codes "still on login screen"
    ∷ []

-- `marker in error`
unfoldable pub is_in : Text → Text → Bool
is_in marker [] = starts_with [] marker
is_in marker (c ∷ s) = starts_with (c ∷ s) marker || is_in marker s

unfoldable pub needs_human : Option Text → Bool
needs_human none = false
needs_human (some error) = any (λ m. is_in m error) markers

-- the wording, ALERT_FAILED_RUNS and ALERT_NO_POSTS_HOURS (in seconds)
pub record Alerting : Type 0 where
  pub failed_runs : ℕ
  pub no_posts_seconds : ℕ
  pub say_restricted : Text → Text
  pub say_login : Text → Text
  pub say_failing : Text → Text
  pub say_no_posts : Text
  pub say_following : ℕ × ℕ → Text
  pub say_renames : List (Text × Text × ℕ) → Text

error_of : Run → Option Text
error_of r = r.error

earliest : List (Option ℕ) → Option ℕ
earliest [] = none
earliest (t ∷ ts) = elim t [
  | none ↦ earliest ts
  | some a ↦ elim (earliest ts) [ none ↦ some a | some b ↦ some (min a b) ]
]

newest : List StoredPost → Option ℕ
newest [] = none
newest (p ∷ posts) = elim (newest posts) [
  | none ↦ some p.scraped_at
  | some b ↦ some (max p.scraped_at b)
]

-- the latest run's error
unfoldable pub latest_error : List Run → Option Text
latest_error [] = none
latest_error (r ∷ runs) = r.error

unfoldable pub account_condition : Alerting → Option Text → List (Text × Text)
account_condition a none = []
account_condition a (some e) =
    if is_in restriction e
    then (restricted, a.say_restricted e) ∷ []
    else (if needs_human (some e) then (login, a.say_login e) ∷ [] else [])

unfoldable pub failing_condition : Alerting → List Run → List (Text × Text)
unfolding error_of
failing_condition a runs =
    let window = take (max a.failed_runs 1) runs in
    if ltb 0 a.failed_runs
      && (leb a.failed_runs (length window) && all (λ r. truthy (error_of r)) window)
    then (failing, a.say_failing (elim (latest_error window) [ none ↦ [] | some e ↦ e ])) ∷ []
    else []

is_before : Option ℕ → ℕ → Bool
is_before none cutoff = false
is_before (some t) cutoff = ltb t cutoff

unfoldable pub no_posts_condition : Alerting → List Run → List StoredPost → ℕ → List (Text × Text)
unfolding earliest newest is_before
no_posts_condition a runs posts now =
    let cutoff = now - a.no_posts_seconds in
    let last = newest posts in
    if ltb 0 a.no_posts_seconds
      && (is_before (earliest (map (λ r. r.started_at) runs)) cutoff
          && (elim last [ none ↦ true | some t ↦ ltb t cutoff ]))
    then (no_posts, a.say_no_posts) ∷ []
    else []

unfoldable pub one_of {ℓ} : {A : Type ℓ} → Text → (A → Text) → Option A → List (Text × Text)
one_of kind say none = []
one_of kind say (some x) = (kind, say x) ∷ []

unfoldable pub rename_condition : Alerting → List (Text × Text × ℕ) → List (Text × Text)
rename_condition a [] = []
rename_condition a (r ∷ rs) = (rename, a.say_renames (r ∷ rs)) ∷ []

-- conditions(): the runs newest first, held_following(), _newer_validated()
unfoldable pub conditions :
    Alerting → List Run → Tables → Option (ℕ × ℕ) → Option Text → ℕ → List (Text × Text)
conditions a runs t held newer now =
    account_condition a (latest_error runs)
    ++ (failing_condition a runs
        ++ (no_posts_condition a runs t.posts now
            ++ (one_of following a.say_following held
                ++ (one_of newer_build (λ m. m) newer
                    ++ rename_condition a (rename_candidates t)))))
