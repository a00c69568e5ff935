-- ===== src/Navigation/Collected.antt =====
-- What scrape_following_list() of app/instadroid/navigation.py collects.
use instadroid.Prelude.{
  ℕ, zero, suc, ◌+◌, ◌≤◌, ◌<◌, ◌*◌, ◌≡◌, ◌⊎◌, refl, sym, ◌∙◌, ap, inl, inr, false, Option, none,
  some, List, [], ◌∷◌, arith, leb, ◌==◌, ==_iff, if◌then◌else◌, Text, contains, length, Bool-cases,
}
use mathlib.Core.Path.{subst}
use instadroid.Db.Following.{Following}
use instadroid.Navigation.Collecting.{collect, scroll_list, scrape_following_list}
use instadroid.Navigation.Names.{
  AreDistinct, on_screens, collect-append, collect-contains, collect-AreDistinct, collect-same,
  collect-nil, on_screens-next,
}

-- what a collection over the first `k` screens is; it stopped at the last, or after `limit` screens that
-- brought no name that was new
pub record IsCollected (names : ℕ → List Text) (limit max : ℕ) (collected : List Text)
    : Type 0 where
  pub k : ℕ
  pub within : k ≤ max
  pub all : collected ≡ collect [] (on_screens names k)
  pub stopped :
      (k ≡ max) ⊎ ((j : ℕ) × (j + limit ≤ k) × (collected ≡ collect [] (on_screens names j)))

next_screen :
    (names : ℕ → List Text) (screens : ℕ) (collected : List Text)
    → collected ≡ collect [] (on_screens names screens)
    → collect collected (names screens) ≡ collect [] (on_screens names (screens + 1))
next_screen names screens collected a =
    ap (λ c. collect c (names screens)) a
    ∙ (sym (collect-append [] (on_screens names screens) (names screens))
        ∙ ap (collect []) (sym (on_screens-next names screens)))

IsCollected-step :
    (names : ℕ → List Text) (limit rounds screens j streak : ℕ) (collected rest : List Text)
    → collected ≡ collect [] (on_screens names (screens + 1))
    → collected ≡ collect [] (on_screens names j)
    → j + streak ≡ screens + 1
    → IsCollected names limit (screens + 1 + rounds) rest
    → IsCollected names limit (screens + suc rounds) (if leb limit streak then collected else rest)
IsCollected-step names limit rounds screens j streak collected rest a b c ih =
    elim (Bool-cases (leb limit streak)) [
      | inl e ↦
          (let le : limit ≤ streak = ground arith in
            rw e (record {
              k = screens + 1;
              within = omega arith;
              all = a;
              stopped = inr (j, omega arith, b);
            }))
      | inr e ↦
          (let same : screens + 1 + rounds ≡ screens + suc rounds = omega arith in
            rw e (subst (λ t. IsCollected names limit t rest) same ih))
    ]

-- the loop from `screens` on, where the last `streak` screens brought nothing new
scroll_list-IsCollected :
    (limit rounds screens j : ℕ) (names : ℕ → List Text) (collected : List Text) (streak : ℕ)
    → collected ≡ collect [] (on_screens names screens)
    → collected ≡ collect [] (on_screens names j)
    → j + streak ≡ screens
    → IsCollected names limit
        (screens + rounds)
        (scroll_list limit rounds screens names collected streak)
unfolding scroll_list
scroll_list-IsCollected limit zero screens j names collected streak a b c = record {
  k = screens;
  within = omega arith;
  all = a;
  stopped = inl (omega arith);
}
scroll_list-IsCollected limit (suc rounds) screens j names collected streak a b c =
    let collected' = collect collected (names screens) in
    let a' = next_screen names screens collected a in
    elim (Bool-cases (length collected' == length collected)) [
      | inl e ↦
          (let b' : collected' ≡ collect [] (on_screens names j) =
              collect-same collected (names screens) ((==_iff _ _).0 e) ∙ b in
            let c' : j + (streak + 1) ≡ screens + 1 = omega arith in
            rw e (
              IsCollected-step names limit rounds screens j (streak + 1) collected' _ a' b' c' (
                scroll_list-IsCollected limit rounds (screens + 1) j names collected' (streak + 1)
                  a' b' c')))
      | inr e ↦
          (let c' : screens + 1 + 0 ≡ screens + 1 = omega arith in
            rw e (
              IsCollected-step names limit rounds screens (screens + 1) 0 collected' _ a' a' c' (
                scroll_list-IsCollected limit rounds (screens + 1) (screens + 1) names collected' 0
                  a' a' c')))
    ]

-- what scrape_following_list() gives: no name twice, exactly those on the screens that it saw
abbrev pub Lists : (ℕ → List Text) → ℕ → ℕ → Option (List Text) → Type 0
Lists names limit max none =
    (d : IsCollected names limit max []) × ((n : Text) → contains n (on_screens names d.k) ≡ false)
Lists names limit max (some collected) =
    (d : IsCollected names limit max collected) × AreDistinct collected
    × ((n : Text) → contains n collected ≡ contains n (on_screens names d.k))

listed-Lists :
    (names : ℕ → List Text) (limit max : ℕ) (collected : List Text)
    → IsCollected names limit max collected
    → Lists names limit max (elim collected [ [] ↦ none | n ∷ c ↦ some (n ∷ c) ])
unfolding contains
listed-Lists names limit max [] d =
    (d, λ n. ground (arith, ap (contains n) d.all, collect-contains n [] (on_screens names d.k)))
listed-Lists names limit max (x ∷ c) d = (
  d,
  subst AreDistinct (sym d.all) (collect-AreDistinct [] (on_screens names d.k) tt),
  λ n. ap (contains n) d.all ∙ collect-contains n [] (on_screens names d.k),
)

-- The list has each name once, exactly those on the first `k` screens, where `k` is MAX_FOLLOWING_SCROLLS
-- or the last FOLLOWING_LIST_EMPTY_LIMIT screens brought none that was new; there is no list only if the
-- screens had no name.
pub scrape_following_list-Lists :
    (limit max : ℕ) (names : ℕ → List Text)
    → Lists names limit max (scrape_following_list limit max names)
unfolding scrape_following_list
scrape_following_list-Lists limit max names =
    let done : IsCollected names limit (0 + max) (scroll_list limit max 0 names [] 0) =
      scroll_list-IsCollected limit max 0 0 names [] 0 (sym (collect-nil [])) (sym (collect-nil []))
        refl in
    let zero_add : 0 + max ≡ max = omega arith in
    listed-Lists names limit max _
      (subst (λ t. IsCollected names limit t (scroll_list limit max 0 names [] 0)) zero_add done)

-- What a refresh leaves of the tables: an unchanged list; the list that was collected, long enough beside
-- the one before; or one held back, with the list before in force.
abbrev pub IsRefreshed :
    ℕ → Option (List Text) → Following → Option (Following × Option (ℕ × ℕ)) → Type 0
IsRefreshed shrink collected f none = ⊥
IsRefreshed shrink collected f (some (f', none)) =
    ((collected ≡ none) × (f' ≡ f))
    ⊎ ((us : List Text) × (collected ≡ some us)
        × AreDistinct us
        × (f'.stored ≡ us)
        × ((shrink ≡ 0) ⊎ (length f.stored * shrink ≤ length us * 100)))
IsRefreshed shrink collected f (some (f', some (found, stored))) =
    (us : List Text) × (collected ≡ some us)
    × (f'.stored ≡ f.stored)
    × (f'.pending ≡ us)
    × (found * 100 < stored * shrink)
