-- ===== src/Profiles/Active.antt =====
-- activate_profile() and _unknown_hooks() of app/instadroid/versioning.py. PROFILE_WARNING is the list of
-- its parts, their wording left out; none is an exception.
use instadroid.Prelude.{
  ℕ, Bool, false, not, ◌&&◌, ◌||◌, Option, none, some, is_some, List, [], ◌∷◌, ◌++◌, ◌==◌,
  if◌then◌else◌, Text, codes, starts_with, contains, keep, map,
}
use instadroid.Db.Posts.{truthy}
use instadroid.Feed.Cards.{is_empty}
use instadroid.Profiles.Builds.{Profile, major_of, verification}
use instadroid.Profiles.Choice.{
  Library, Warnings, available, load_number, covering, newest_of, select,
}

-- an attribute that dir() lists of a profile, in the order of their names
pub record Attribute : Type 0 where
  pub name : Text
  pub is_callable : Bool

-- the attributes of BaseProfile, the names of the @versioned functions, and what each profile defines
pub record Hooks : Type 0 where
  pub base : List Text
  pub versioned : List Text
  pub defined : Profile → List Attribute

unfoldable pub is_unknown : Hooks → Attribute → Bool
is_unknown h a =
    not (starts_with a.name (codes "_"))
    && (not (contains a.name h.base) && (a.is_callable && not (contains a.name h.versioned)))

unfoldable pub unknown_hooks : Hooks → Profile → List Text
unfolding is_unknown
unknown_hooks h p = map (λ a. a.name) (keep (is_unknown h) (h.defined p))

pub data Warning : Type 0 where
  selection : Warnings → Warning
  covered_by : Option ℕ → Warning
  unvalidated : Option Text → Warning
  misnamed : List Text → Warning

unfoldable pub selection_warning : Warnings → List Warning
selection_warning w = if w.bad_request || w.too_old then selection w ∷ [] else []

unfoldable pub is_profile : ℕ → Option ℕ → Bool
is_profile major none = false
is_profile major (some n) = n == major

-- IG_PROFILE is not the profile that covers the installed version
unfoldable pub covered_warning : Library → Text → Option Text → Profile → List Warning
unfolding is_profile
covered_warning lib setting installed p =
    let expected = covering (available lib.dirs) (major_of installed) in
    if truthy installed && (not (is_empty setting) && not (is_profile p.major expected))
    then covered_by expected ∷ []
    else []

-- the installed version is neither confirmed nor suspected to work
unfoldable pub unvalidated_warning : Library → Option Text → Profile → Option (List Warning)
unvalidated_warning lib installed p =
    if truthy installed && not (is_some (verification p (major_of installed)))
    then elim (load_number lib p.major) [
      | none ↦ none
      | some q ↦ some (unvalidated (newest_of q.validated) ∷ [])
    ]
    else some []

unfoldable pub misnamed_warning : List Text → List Warning
misnamed_warning [] = []
misnamed_warning (name ∷ names) = misnamed (name ∷ names) ∷ []

unfoldable pub with_warnings :
    Library → Hooks → Text → Option Text → Profile × Warnings → Option (Profile × List Warning)
with_warnings lib h setting installed (p, w) = elim (unvalidated_warning lib installed p) [
  | none ↦ none
  | some untried ↦ some (
    p,
    selection_warning w
        ++ (covered_warning lib setting installed p
            ++ (untried ++ misnamed_warning (unknown_hooks h p))),
  )
]

-- the profile that is active from here on, and the warnings
unfoldable pub activate_profile :
    Library → Hooks → Text → Option Text → Option (Profile × List Warning)
activate_profile lib h setting installed = elim (select lib setting installed) [
  | none ↦ none
  | some chosen ↦ with_warnings lib h setting installed chosen
]
