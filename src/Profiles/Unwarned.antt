-- ===== src/Profiles/Unwarned.antt =====
-- What the scraper relies on where PROFILE_WARNING is None (app/instadroid/versioning.py).
use instadroid.Prelude.{
  ℕ, ◌≡◌, ◌≢◌, refl, inl, inr, sym, ap, ◌∙◌, true, false, Option, none, some, List, [], ◌∷◌, ◌++◌,
  arith, Text, Bool-cases, Option-cases,
}
use instadroid.Prelude.Strip.{strip}
use instadroid.Db.Posts.{truthy}
use instadroid.Feed.Cards.{is_empty}
use instadroid.Profiles.Builds.{Profile, major_of, verification}
use instadroid.Profiles.Choice.{
  Library, Warnings, available, load_number, load_or_fail, covering, select_installed, select,
  first_of,
}
use instadroid.Profiles.Covering.{load_number-Memᴰ}
use instadroid.Profiles.Active.{
  Hooks, unknown_hooks, selection_warning, covered_warning, is_profile, unvalidated_warning,
  misnamed_warning, with_warnings, activate_profile,
}

append_nil-both {ℓ} : {A : Type ℓ} (xs ys : List A) → xs ++ ys ≡ [] → (xs ≡ []) × (ys ≡ [])
append_nil-both [] ys h = (refl, h)
append_nil-both (x ∷ xs) ys h = cc

module _ (lib : Library) where
  load_or_fail-major :
      (n : ℕ) (w w' : Warnings) (p : Profile)
      → load_or_fail lib (some n) w ≡ some (p, w')
      → (p.major ≡ n) × (w ≡ w')
  unfolding load_or_fail
  load_or_fail-major n w w' p h = elim (Option-cases (load_number lib n)) [
    | inl e ↦ ground arith
    | inr (q, e) ↦ ground (arith, load_number-Memᴰ lib n q e)
  ]

  -- the blank IG_PROFILE: the version's profile, if select() does not warn
  select_installed-covers :
      (installed : Option Text) (m : ℕ) (p : Profile) (w : Warnings)
      → select_installed lib false installed ≡ some (p, w)
      → selection_warning w ≡ []
      → major_of installed ≡ some m
      → covering (available lib.dirs) (major_of installed) ≡ some p.major
  unfolding select_installed selection_warning load_or_fail
  select_installed-covers installed m p w h quiet known =
      elim (Option-cases (covering (available lib.dirs) (major_of installed))) [
        | inl e ↦ elim (Option-cases (first_of (available lib.dirs))) [
          | inl empty ↦ ground arith
          | inr (n, first) ↦
              ground
                (arith, load_or_fail-major n (record { bad_request = false; too_old = true }) w p)
        ]
        | inr (n, e) ↦
            ground
              (arith, load_or_fail-major n (record { bad_request = false; too_old = false }) w p)
      ]

  module _ (h : Hooks) (setting : Text) (installed : Option Text) where
    -- no warning is none of its parts
    with_warnings-quiet :
        (q p : Profile) (w : Warnings)
        → with_warnings lib h setting installed (q, w) ≡ some (p, [])
        → (q ≡ p)
          × (selection_warning w ≡ [])
          × (covered_warning lib setting installed q ≡ [])
          × (unvalidated_warning lib installed q ≡ some [])
          × (misnamed_warning (unknown_hooks h q) ≡ [])
    unfolding with_warnings
    with_warnings-quiet q p w e = elim (Option-cases (unvalidated_warning lib installed q)) [
      | inl raised ↦ ground arith
      | inr (u, given) ↦
          let a = selection_warning w in
          let b = covered_warning lib setting installed q in
          let c = misnamed_warning (unknown_hooks h q) in
          let all : a ++ (b ++ (u ++ c)) ≡ [] = ground arith in
          let (na, rest) = append_nil-both a (b ++ (u ++ c)) all in
          let (nb, rest') = append_nil-both b (u ++ c) rest in
          let (nu, nc) = append_nil-both u c rest' in (ground arith, na, nb, given ∙ ap some nu, nc)
    ]

    misnamed_none : (names : List Text) → misnamed_warning names ≡ [] → names ≡ []
    unfolding misnamed_warning
    misnamed_none [] e = refl
    misnamed_none (name ∷ names) e = cc

    validated_none :
        (p : Profile)
        → truthy installed ≡ true
        → unvalidated_warning lib installed p ≡ some []
        → verification p (major_of installed) ≢ none
    unfolding unvalidated_warning
    validated_none p there e none_known = elim (Option-cases (load_number lib p.major)) [
      | inl a ↦ ground arith
      | inr (q, a) ↦ ground arith
    ]

    covered_set :
        (p : Profile)
        → truthy installed ≡ true
        → is_empty setting ≡ false
        → covered_warning lib setting installed p ≡ []
        → covering (available lib.dirs) (major_of installed) ≡ some p.major
    unfolding covered_warning is_profile
    covered_set p there set e =
        elim (Option-cases (covering (available lib.dirs) (major_of installed))) [
          | inl a ↦ ground arith
          | inr (n, a) ↦ ground arith
        ]

    blank-select :
        (t : Text)
        → is_empty t ≡ true
        → select lib t installed ≡ select_installed lib false installed
    unfolding select is_empty strip
    blank-select [] e = refl
    blank-select (c ∷ t) e = cc

    chosen-covers :
        (q : Profile) (w : Warnings)
        → truthy installed ≡ true
        → select lib setting installed ≡ some (q, w)
        → selection_warning w ≡ []
        → covered_warning lib setting installed q ≡ []
        → verification q (major_of installed) ≢ none
        → covering (available lib.dirs) (major_of installed) ≡ some q.major
    unfolding verification
    chosen-covers q w there chosen quiet covered known = elim (Bool-cases (is_empty setting)) [
      | inr set ↦ covered_set q there set covered
      | inl blank ↦ elim (Option-cases (major_of installed)) [
        | inl a ↦ absurd (known (ground arith))
        | inr (m, a) ↦
            select_installed-covers installed m q w (sym (blank-select setting blank) ∙ chosen)
              quiet a
      ]
    ]

    -- Let a version of Instagram be installed. Where activate_profile() sets no warning, whatever IG_PROFILE
    -- says, the profile it activates is the one that covers the installed version, the version is confirmed
    -- or suspected to work with it, and it defines no misnamed override.
    pub activate_profile-unwarned :
        (p : Profile)
        → truthy installed ≡ true
        → activate_profile lib h setting installed ≡ some (p, [])
        → (covering (available lib.dirs) (major_of installed) ≡ some p.major)
          × (verification p (major_of installed) ≢ none)
          × (unknown_hooks h p ≡ [])
    unfolding activate_profile
    activate_profile-unwarned p there e = elim (Option-cases (select lib setting installed)) [
      | inl raised ↦ ground arith
      | inr ((q, w), chosen) ↦
          let (same, quiet, covered, tried, named) = with_warnings-quiet q p w (ground arith) in
          let known = validated_none q there tried in
          rw (sym same) (
            chosen-covers q w there chosen quiet covered known,
            known,
            misnamed_none (unknown_hooks h q) named,
          )
    ]
