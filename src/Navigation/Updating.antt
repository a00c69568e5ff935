-- ===== src/Navigation/Updating.antt =====
-- The choice that _update_instagram() of app/instadroid/navigation.py makes when Instagram refuses to
-- run until it is updated. The installation itself is not modelled.
use instadroid.Prelude.{
  ℕ, ◌≡◌, ◌⊎◌, refl, inl, inr, Bool, true, false, not, Option, none, some, List, arith,
  if◌then◌else◌, Text, codes, text_eq, Bool-cases,
}
use mathlib.Core.List.{Memᴰ}
use instadroid.Feed.Cards.{is_empty}
use instadroid.Profiles.Builds.{version_key, key_less, major_of}
use instadroid.Profiles.Choice.{Library, available, builds_of, newer_build}
use instadroid.Profiles.Newer.{IsNewer, newer_build-IsNewer}

pub data Blocked : Type 0 where
  auto_install_off : Blocked
  pinned_build : Blocked
  nothing_newer : Blocked

pub data Plan : Type 0 where
  refuse : Blocked → Plan
  install : Text → Plan

unfoldable pub is_latest : Library → Text → Bool
is_latest lib pinned = text_eq (lib.lower pinned) (codes "latest")

-- the refusals, in their order, then the target
unfoldable pub plan_for : Bool → Bool → Option Text → Plan
plan_for auto_install is_pinned none =
    if not auto_install
    then refuse auto_install_off
    else if is_pinned
    then refuse pinned_build
    else refuse nothing_newer
plan_for auto_install is_pinned (some target) =
    if not auto_install
    then refuse auto_install_off
    else if is_pinned
    then refuse pinned_build
    else install target

-- _update_instagram() up to the installation, with IG_AUTO_INSTALL, IG_APK_VERSION, DEFAULT_BUILD and
-- the installed version; none is load()'s ValueError
unfoldable pub update_plan : Library → Bool → Text → Option Text → Option Text → Option Plan
update_plan lib auto_install pinned default current =
    if is_latest lib pinned
    then some (plan_for auto_install false (some (codes "latest")))
    else elim (newer_build lib default current) [
      | none ↦ none
      | some target ↦ some (plan_for auto_install (not (is_empty pinned)) target)
    ]

plan_for-install :
    (auto is_pinned : Bool) (o : Option Text) (b : Text)
    → plan_for auto is_pinned o ≡ install b
    → (auto ≡ true) × (is_pinned ≡ false) × (o ≡ some b)
unfolding plan_for
plan_for-install true true none b h = ground arith
plan_for-install true true (some t) b h = ground arith
plan_for-install true false none b h = ground arith
plan_for-install true false (some t) b h = (refl, refl, ground arith)
plan_for-install false p none b h = ground arith
plan_for-install false p (some t) b h = ground arith

IsNewer-some :
    (installed : Text) (default r : Option Text) (builds : List Text) (b : Text)
    → IsNewer installed default builds r
    → r ≡ some b
    → IsNewer installed default builds (some b)
IsNewer-some installed default none builds b h e = cc
IsNewer-some installed default (some c) builds b h e = let same : c ≡ b = cc in rw (← same) h

some_same : (a b : Text) → some a ≡ some b → b ≡ a
some_same a b e = cc

-- An update of an installed Instagram whose version can be read goes ahead only where IG_AUTO_INSTALL is
-- on, and then either IG_APK_VERSION asks for the latest build, or it is not set and the new build is
-- newer than the installed one and DEFAULT_BUILD or validated.
pub update_plan-IsNewer :
    (lib : Library) (auto : Bool) (pinned : Text) (default : Option Text) (installed : Text) (m : ℕ)
    (builds : List Text) (b : Text)
    → major_of (some installed) ≡ some m
    → builds_of lib (available lib.dirs) ≡ some builds
    → update_plan lib auto pinned default (some installed) ≡ some (install b)
    → (auto ≡ true)
      × (((is_latest lib pinned ≡ true) × (b ≡ codes "latest"))
          ⊎ ((is_empty pinned ≡ true)
              × (key_less (version_key installed) (version_key b) ≡ true)
              × ((default ≡ some b) ⊎ Memᴰ b builds)))
unfolding update_plan
update_plan-IsNewer lib auto pinned default installed m builds b known validated h =
    let (r, found, newer) = newer_build-IsNewer lib default installed m builds known validated in
    elim (Bool-cases (is_latest lib pinned)) [
      | inl e ↦
          (let plan : plan_for auto false (some (codes "latest")) ≡ install b = ground arith in
            let (on, _, same) = plan_for-install auto false (some (codes "latest")) b plan in
            (on, inl (e, some_same (codes "latest") b same)))
      | inr e ↦
          (let plan : plan_for auto (not (is_empty pinned)) r ≡ install b = ground arith in
            let (on, free_choice, same) = plan_for-install auto (not (is_empty pinned)) r b plan in
            let (less, from) = IsNewer-some installed default r builds b newer same in
            (on, inr (ground arith, less, from)))
    ]
