-- ===== src/Profiles/Selected.antt =====
-- Which profile select() of app/igprofiles/__init__.py chooses.
use instadroid.Prelude.{
  ℕ, ◌≡◌, ◌≢◌, ◌⊎◌, refl, sym, ◌∙◌, ap, inl, inr, Bool, true, false, Option, none, some, List, [],
  ◌∷◌, arith, Text, Bool-cases, Option-cases,
}
use mathlib.Core.List.{Memᴰ}
use mathlib.Core.Path.{subst}
use instadroid.Prelude.Strip.{strip}
use instadroid.Feed.Cards.{is_empty}
use instadroid.Profiles.Builds.{Profile, major_of}
use instadroid.Profiles.Choice.{
  Library, Warnings, profile_number, available, load, load_number, covering, last_of, first_of,
  load_or_fail, select_installed, select, normalize,
}
use instadroid.Profiles.Covering.{
  IsAscending, available-IsAscending, IsHighest, covering-IsHighest, load_number-Memᴰ,
}

last_of-Memᴰ : (n : ℕ) (ns : List ℕ) → (k : ℕ) × (last_of (n ∷ ns) ≡ some k) × Memᴰ k (n ∷ ns)
unfolding last_of
last_of-Memᴰ n [] = (n, refl, Memᴰ.head refl)
last_of-Memᴰ n (m ∷ ns) = let (k, e, mem) = last_of-Memᴰ m ns in (k, e, Memᴰ.tail mem)

covering-Memᴰ :
    (ns : List ℕ) (o : Option ℕ) (n : ℕ) → IsAscending ns → covering ns o ≡ some n → Memᴰ n ns
unfolding covering
covering-Memᴰ ns none n h e = ground arith
covering-Memᴰ ns (some m) n h e = highest (covering ns (some m)) e (covering-IsHighest ns m h)
  where
    highest : (o : Option ℕ) → o ≡ some n → IsHighest m ns o → Memᴰ n ns
    highest none q k = cc
    highest (some j) q (le, mem, k) = let same : j ≡ n = cc in rw (← same) mem

cons_cases : (ns : List ℕ) → (ns ≡ []) ⊎ ((n : ℕ) × (rest : List ℕ) × (ns ≡ n ∷ rest))
cons_cases [] = inl refl
cons_cases (n ∷ rest) = inr (n, rest, refl)

-- what select() promises, where every profile there is can be loaded
module _ (lib : Library)
    (loads : (n : ℕ) → Memᴰ n (available lib.dirs) → load_number lib n ≢ none) where
  abbrev names : List ℕ
  names = available lib.dirs

  -- one of the profiles, and the covering one if nothing else was asked for
  abbrev pub IsChosen : Bool → Option Text → Option (Profile × Warnings) → Type 0
  IsChosen free_choice installed none = ⊥
  IsChosen free_choice installed (some (p, w)) =
      Memᴰ p.major names
      × (free_choice ≡ true → (n : ℕ) → covering names (major_of installed) ≡ some n → p.major ≡ n)

  load_or_fail-loads :
      (n : ℕ) (w : Warnings)
      → Memᴰ n names
      → (p : Profile) × (load_or_fail lib (some n) w ≡ some (p, w))
        × Memᴰ p.major names
        × (p.major ≡ n)
  unfolding load_or_fail
  load_or_fail-loads n w mem = elim (Option-cases (load_number lib n)) [
    | inl e ↦ absurd (loads n mem e)
    | inr (p, e) ↦
        (let (there, same) = load_number-Memᴰ lib n p e in
          (p, rw (e, load_or_fail) refl, there, same))
  ]

  loaded-IsChosen :
      (installed : Option Text) (n : ℕ) (w : Warnings)
      → Memᴰ n names
      → ((k : ℕ) → covering names (major_of installed) ≡ some k → n ≡ k)
      → IsChosen true installed (load_or_fail lib (some n) w)
  loaded-IsChosen installed n w mem same =
      let (p, e, there, own) = load_or_fail-loads n w mem in rw e (there, λ c k q. own ∙ same k q)

  load-Memᴰ : (name : Text) (p : Profile) → load lib name ≡ some p → Memᴰ p.major names
  unfolding load
  load-Memᴰ name p h = elim (Option-cases (profile_number (normalize lib.lower name))) [
    | inl e ↦ ground arith
    | inr (n, e) ↦ (load_number-Memᴰ lib n p (ground arith)).0
  ]

  any_choice :
      (installed : Option Text) (r : Option (Profile × Warnings))
      → IsChosen true installed r
      → IsChosen false installed r
  any_choice installed none h = h
  any_choice installed (some (p, w)) (mem, h) = (mem, λ c. cc)

  select_installed-covered :
      (bad : Bool) (installed : Option Text) (n : ℕ)
      → covering names (major_of installed) ≡ some n
      → select_installed lib bad installed
        ≡ load_or_fail lib (some n) (record { bad_request = bad; too_old = false })
  unfolding select_installed
  select_installed-covered bad installed n e = rw (e, select_installed) refl

  select_installed-unknown :
      (bad : Bool) (installed : Option Text)
      → covering names (major_of installed) ≡ none
      → major_of installed ≡ none
      → select_installed lib bad installed
        ≡ load_or_fail lib (last_of names) (record { bad_request = bad; too_old = false })
  unfolding select_installed
  select_installed-unknown bad installed e k = rw (e, k, select_installed) refl

  select_installed-old :
      (bad : Bool) (installed : Option Text) (m : ℕ)
      → covering names (major_of installed) ≡ none
      → major_of installed ≡ some m
      → select_installed lib bad installed
        ≡ load_or_fail lib (first_of names) (record { bad_request = bad; too_old = true })
  unfolding select_installed
  select_installed-old bad installed m e k = rw (e, k, select_installed) refl

  first_of-cons : (n : ℕ) (rest : List ℕ) → first_of (n ∷ rest) ≡ some n
  unfolding first_of
  first_of-cons n rest = refl

  select_installed-IsChosen :
      (bad : Bool) (installed : Option Text)
      → names ≢ []
      → IsChosen true installed (select_installed lib bad installed)
  select_installed-IsChosen bad installed some_names =
      elim (Option-cases (covering names (major_of installed))) [
        | inr (n, e) ↦ chosen (select_installed-covered bad installed n e) (
            loaded-IsChosen installed n _
              (covering-Memᴰ names (major_of installed) n (available-IsAscending lib.dirs) e)
              (λ k q. cc))
        | inl e ↦ elim (cons_cases names) [
          | inl empty ↦ absurd (some_names empty)
          | inr (n, rest, full) ↦ elim (Option-cases (major_of installed)) [
            | inl unknown ↦
                (let (k, last, mem) = last_of-Memᴰ n rest in
                  chosen
                    (select_installed-unknown bad installed e unknown
                      ∙ ap (λ o. load_or_fail lib o (record { bad_request = bad; too_old = false }))
                          (ap last_of full ∙ last))
                    (loaded-IsChosen installed k _ (rw full mem) (λ j q. cc)))
            | inr (m, known) ↦
                chosen
                  (select_installed-old bad installed m e known
                    ∙ ap (λ o. load_or_fail lib o (record { bad_request = bad; too_old = true }))
                        (ap first_of full ∙ first_of-cons n rest))
                  (loaded-IsChosen installed n _ (rw full (Memᴰ.head refl)) (λ j q. cc))
          ]
        ]
      ]
    where
      chosen :
          {r t : Option (Profile × Warnings)}
          → r ≡ t
          → IsChosen true installed t
          → IsChosen true installed r
      chosen {r} {t} e h = subst (IsChosen true installed) (sym e) h

  -- A profile is chosen whatever IG_PROFILE says and whatever is installed, if there is any and each can
  -- be loaded: one of those there are, and where IG_PROFILE is blank and a profile covers the installed
  -- version, that one.
  pub select-IsChosen :
      (requested : Text) (installed : Option Text)
      → available lib.dirs ≢ []
      → IsChosen (is_empty (strip requested)) installed (select lib requested installed)
  unfolding select
  select-IsChosen requested installed some_names = elim (Bool-cases (is_empty (strip requested))) [
    | inl e ↦ rw e (select_installed-IsChosen false installed some_names)
    | inr e ↦ elim (Option-cases (load lib requested)) [
      | inl k ↦
          rw (e, k)
            (any_choice installed (select_installed lib true installed)
              (select_installed-IsChosen true installed some_names))
      | inr (p, k) ↦ rw (e, k) (load-Memᴰ requested p k, λ c. cc)
    ]
  ]
