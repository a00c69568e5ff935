-- ===== src/Alerts/Kinds.antt =====
-- The kinds of app/instadroid/alerts.py's conditions().
use instadroid.Prelude.{
  ℕ, ◌≡◌, refl, Bool, true, false, Option, none, some, List, [], ◌∷◌, ◌++◌, arith, if◌then◌else◌,
  Text, text_eq, inl, inr, ◌⊎◌,
}
use instadroid.Db.Runs.{Run}
use instadroid.Db.Renames.{Tables, rename_candidates}
use instadroid.Alerts.Conditions.{
  Alerting, conditions, account_condition, failing_condition, no_posts_condition, rename_condition,
  one_of, latest_error, login, restricted, failing, no_posts, rename, following, newer_build,
}
use instadroid.Alerts.Table.{Alert, message_of, update, lookup}
use instadroid.Alerts.Settled.{IsDict, update-settles}

-- a condition of one kind, if it holds
Single : Text → List (Text × Text) → Type 0
Single k [] = Unit
Single k ((j, m) ∷ []) = j ≡ k
Single k (_ ∷ _ ∷ _) = ⊥

lookup-part :
    (j k : Text) (xs ys : List (Text × Text))
    → Single k xs
    → text_eq k j ≡ false
    → lookup j ys ≡ none
    → lookup j (xs ++ ys) ≡ none
unfolding Single lookup
lookup-part j k [] ys s e h = h
lookup-part j k ((i, m) ∷ []) ys s e h = rw (s, e) h
lookup-part j k (_ ∷ _ ∷ _) ys s e h = elim s [ ]

IsDict-part :
    (k : Text) (xs ys : List (Text × Text))
    → Single k xs
    → lookup k ys ≡ none
    → IsDict ys
    → IsDict (xs ++ ys)
unfolding Single
IsDict-part k [] ys s h d = d
IsDict-part k ((i, m) ∷ []) ys s h d = (rw s h, d)
IsDict-part k (_ ∷ _ ∷ _) ys s h d = elim s [ ]

Single-if : (c : Bool) (k m : Text) → Single k (if c then (k, m) ∷ [] else [])
unfolding Single
Single-if true k m = refl
Single-if false k m = tt

Single-one_of : {A : Type 0} (k : Text) (say : A → Text) (o : Option A) → Single k (one_of k say o)
unfolding Single one_of
Single-one_of k say none = tt
Single-one_of k say (some x) = refl

Single-rename : (a : Alerting) (rs : List (Text × Text × ℕ)) → Single rename (rename_condition a rs)
unfolding Single rename_condition
Single-rename a [] = tt
Single-rename a (r ∷ rs) = refl

IsDict-Single : (k : Text) (xs : List (Text × Text)) → Single k xs → IsDict xs
unfolding Single lookup
IsDict-Single k [] s = tt
IsDict-Single k ((i, m) ∷ []) s = (refl, tt)
IsDict-Single k (_ ∷ _ ∷ _) s = elim s [ ]

lookup-Single :
    (j k : Text) (xs : List (Text × Text)) → Single k xs → text_eq k j ≡ false → lookup j xs ≡ none
unfolding Single lookup
lookup-Single j k [] s e = refl
lookup-Single j k ((i, m) ∷ []) s e = rw (s, e) refl
lookup-Single j k (_ ∷ _ ∷ _) s e = elim s [ ]

account-Single :
    (a : Alerting) (e : Option Text)
    → Single restricted (account_condition a e) ⊎ Single login (account_condition a e)
unfolding account_condition Single
account-Single a none = inl tt
account-Single a (some e) = ground arith

failing-Single : (a : Alerting) (runs : List Run) → Single failing (failing_condition a runs)
unfolding failing_condition
failing-Single a runs = Single-if _ failing _

no_posts-Single :
    (a : Alerting) (runs : List Run) (t : Tables) (now : ℕ)
    → Single no_posts (no_posts_condition a runs t.posts now)
unfolding no_posts_condition
no_posts-Single a runs t now = Single-if _ no_posts _

-- conditions() never lists a kind twice.
pub conditions-IsDict :
    (a : Alerting) (runs : List Run) (t : Tables) (held : Option (ℕ × ℕ)) (newer : Option Text)
    (now : ℕ)
    → IsDict (conditions a runs t held newer now)
unfolding conditions text_eq
conditions-IsDict a runs t held newer now =
    let s1 = failing-Single a runs in
    let s2 = no_posts-Single a runs t now in
    let s3 = Single-one_of following a.say_following held in
    let s4 = Single-one_of newer_build (λ (m : Text). m) newer in
    let s5 = Single-rename a (rename_candidates t) in
    let l5 : (j : Text)
        → text_eq rename j ≡ false
        → lookup j (rename_condition a (rename_candidates t)) ≡ none =
      λ j e5. lookup-Single j rename _ s5 e5 in
    let l4 : (j : Text)
        → text_eq newer_build j ≡ false
        → text_eq rename j ≡ false
        → lookup j (one_of newer_build (λ m. m) newer ++ rename_condition a (rename_candidates t))
          ≡ none =
      λ j e4 e5. lookup-part j newer_build _ _ s4 e4 (l5 j e5) in
    let l3 : (j : Text)
        → text_eq following j ≡ false
        → text_eq newer_build j ≡ false
        → text_eq rename j ≡ false
        → lookup j (
            one_of following a.say_following held
            ++ (one_of newer_build (λ m. m) newer ++ rename_condition a (rename_candidates t)))
          ≡ none =
      λ j e3 e4 e5. lookup-part j following _ _ s3 e3 (l4 j e4 e5) in
    let l2 : (j : Text)
        → text_eq no_posts j ≡ false
        → text_eq following j ≡ false
        → text_eq newer_build j ≡ false
        → text_eq rename j ≡ false
        → lookup j (
            no_posts_condition a runs t.posts now
            ++ (one_of following a.say_following held
                ++ (one_of newer_build (λ m. m) newer ++ rename_condition a (rename_candidates t))))
          ≡ none =
      λ j e2 e3 e4 e5. lookup-part j no_posts _ _ s2 e2 (l3 j e3 e4 e5) in
    let l1 : (j : Text)
        → text_eq failing j ≡ false
        → text_eq no_posts j ≡ false
        → text_eq following j ≡ false
        → text_eq newer_build j ≡ false
        → text_eq rename j ≡ false
        → lookup j (
            failing_condition a runs
            ++ (no_posts_condition a runs t.posts now
                ++ (one_of following a.say_following held
                    ++ (one_of newer_build (λ m. m) newer
                        ++ rename_condition a (rename_candidates t)))))
          ≡ none =
      λ j e1 e2 e3 e4 e5. lookup-part j failing _ _ s1 e1 (l2 j e2 e3 e4 e5) in
    let d5 = IsDict-Single rename _ s5 in
    let d4 : IsDict
        (one_of newer_build (λ m. m) newer ++ rename_condition a (rename_candidates t)) =
      IsDict-part newer_build _ _ s4 (l5 newer_build refl) d5 in
    let d3 : IsDict (
        one_of following a.say_following held
        ++ (one_of newer_build (λ m. m) newer ++ rename_condition a (rename_candidates t))) =
      IsDict-part following _ _ s3 (l4 following refl refl) d4 in
    let d2 : IsDict (
        no_posts_condition a runs t.posts now
        ++ (one_of following a.say_following held
            ++ (one_of newer_build (λ m. m) newer ++ rename_condition a (rename_candidates t)))) =
      IsDict-part no_posts _ _ s2 (l3 no_posts refl refl refl) d3 in
    let d1 : IsDict (
        failing_condition a runs
        ++ (no_posts_condition a runs t.posts now
            ++ (one_of following a.say_following held
                ++ (one_of newer_build (λ m. m) newer
                    ++ rename_condition a (rename_candidates t))))) =
      IsDict-part failing _ _ s1 (l2 failing refl refl refl refl) d2 in
    elim (account-Single a (latest_error runs)) [
      | inl s ↦ IsDict-part restricted _ _ s (l1 restricted refl refl refl refl refl) d1
      | inr s ↦ IsDict-part login _ _ s (l1 login refl refl refl refl refl) d1
    ]

-- Whatever the table held, the alerts that are open after update() are exactly the conditions that hold
-- now, each with its present message.
pub update-conditions :
    (a : Alerting) (runs : List Run) (t : Tables) (held : Option (ℕ × ℕ)) (newer : Option Text)
    (now : ℕ) (alerts : List Alert) (k : Text)
    → message_of k (update (conditions a runs t held newer now) now alerts).0
      ≡ lookup k (conditions a runs t held newer now)
update-conditions a runs t held newer now alerts k =
    update-settles (conditions a runs t held newer now) now alerts k
      (conditions-IsDict a runs t held newer now)
