-- ===== src/Profiles/Tests.antt =====
-- A profile, and the builds that it was validated with.
use instadroid.Prelude.{
  ℕ, ◌≡◌, ◌≢◌, refl, true, none, some, [], ◌∷◌, arith, codes, any, find?, keep, contains,
  starts_with, text_eq,
}
use mathlib.Core.List.{Memᴰ}
use mathlib.Core.Path.{subst}
use instadroid.Feed.Cards.{is_empty}
use instadroid.Profiles.Builds.{
  Profile, major_of, verification, gaps, in_range, insert_once, is_major, majors_of, sorted_set,
  suspected,
}
use instadroid.Parsing.Identity.{or_empty}
use instadroid.Prelude.Strip.{strip}
use instadroid.Profiles.Choice.{
  Library, available, load_number, covering, select, profile_number, insert_number, checked,
  select_installed, load_or_fail,
}
use instadroid.Profiles.Covering.{IsHighest, covering-IsHighest}
use instadroid.Profiles.Selected.{IsChosen, select-IsChosen}
use instadroid.Profiles.Active.{
  Hooks, activate_profile, with_warnings, selection_warning, covered_warning, unvalidated_warning,
  unknown_hooks, misnamed_warning, is_profile,
}
use instadroid.Profiles.Unwarned.{activate_profile-unwarned}
use instadroid.Db.Posts.{truthy}

abbrev v424 : Profile
v424 = record { major = 424; validated = codes "445.0.0.1.2" ∷ codes "450.0.0.50.77" ∷ [] }

abbrev library : Library
library = record {
  dirs =
      record { name = codes "v424"; has_init = true }
      ∷ record { name = codes "tests"; has_init = true }
      ∷ [];
  imported = λ n. some v424;
  lower = λ t. t;
}

one_profile : available library.dirs ≡ 424 ∷ []
unfolding available profile_number insert_number
one_profile = refl

loads_only : (n : ℕ) → Memᴰ n (424 ∷ []) → load_number library n ≢ none
unfolding load_number available profile_number insert_number any checked major_of or_empty
loads_only n (Memᴰ.head e) = rw e (λ q. cc)
loads_only n (Memᴰ.tail m) = elim m [ ]

library-loads : (n : ℕ) → Memᴰ n (available library.dirs) → load_number library n ≢ none
library-loads n m = loads_only n (subst (Memᴰ n) one_profile m)

select-IsChosen_example :
    IsChosen library library-loads true
      (some (codes "446.0.0.49.77"))
      (select library [] (some (codes "446.0.0.49.77")))
unfolding available profile_number insert_number strip is_empty
select-IsChosen_example =
    select-IsChosen library library-loads [] (some (codes "446.0.0.49.77")) (λ e. cc)

covering-IsHighest_example : IsHighest 450 (424 ∷ 447 ∷ []) (covering (424 ∷ 447 ∷ []) (some 450))
covering-IsHighest_example = covering-IsHighest (424 ∷ 447 ∷ []) 450 ((ground arith, tt), (tt, tt))

abbrev one_override : Hooks
one_override = record {
  base = codes "matches" ∷ [];
  versioned = codes "on_feed" ∷ [];
  defined = λ p. record { name = codes "on_feed"; is_callable = true } ∷ [];
}

quiet : activate_profile library one_override [] (some (codes "447.0.0.49.77")) ≡ some (v424, [])
unfolding activate_profile select with_warnings truthy is_empty strip select_installed covering
    major_of or_empty find? available profile_number insert_number load_or_fail load_number any
    checked unvalidated_warning verification keep contains starts_with text_eq covered_warning
    is_profile misnamed_warning selection_warning unknown_hooks gaps in_range insert_once is_major
    majors_of sorted_set suspected
quiet = refl

activate_profile-unwarned_example :
    (covering (available library.dirs) (major_of (some (codes "447.0.0.49.77"))) ≡ some v424.major)
    × (verification v424 (major_of (some (codes "447.0.0.49.77"))) ≢ none)
    × (unknown_hooks one_override v424 ≡ [])
unfolding truthy
activate_profile-unwarned_example =
    activate_profile-unwarned library one_override [] (some (codes "447.0.0.49.77")) v424 refl quiet
