-- ===== src/Profiles/Newer.antt =====
-- Which build app/igprofiles/__init__.py replaces an outdated one with.
use instadroid.Prelude.{
  ℕ, ◌≡◌, ◌⊎◌, refl, sym, ap, inl, inr, true, false, not, ◌&&◌, Option, none, some, or_else, List,
  [], ◌∷◌, arith, if◌then◌else◌, Text, All, All-mono, Bool-cases, Option-cases,
}
use mathlib.Core.Path.{subst}
use mathlib.Core.List.{Memᴰ}
use instadroid.Feed.Cards.{is_empty}
use instadroid.Profiles.Builds.{version_key, key_less, major_of}
use instadroid.Profiles.Choice.{
  Library, available, builds_of, newer_of, newest_of, newest_build, if_newer, newer_build,
}

-- no higher than
abbrev pub IsAtLeast : Text → Text → Type 0
IsAtLeast a b = key_less (version_key a) (version_key b) ≡ false

key_less_irrefl : (a : List ℕ) → key_less a a ≡ false
unfolding key_less
key_less_irrefl [] = refl
key_less_irrefl (x ∷ a) = ground (arith, key_less_irrefl a)

key_less_asym : (a b : List ℕ) → key_less a b ≡ true → key_less b a ≡ false
unfolding key_less
key_less_asym [] [] h = ground arith
key_less_asym [] (y ∷ b) h = refl
key_less_asym (x ∷ a) [] h = ground arith
key_less_asym (x ∷ a) (y ∷ b) h = ground (arith, key_less_asym a b)

key_less-nil : (a : List ℕ) → key_less a [] ≡ false
unfolding key_less
key_less-nil [] = refl
key_less-nil (x ∷ a) = refl

at_least_trans :
    (a b c : List ℕ) → key_less a b ≡ false → key_less b c ≡ false → key_less a c ≡ false
unfolding key_less
at_least_trans a b [] h k = key_less-nil a
at_least_trans a [] (z ∷ c) h k = ground arith
at_least_trans [] (y ∷ b) (z ∷ c) h k = ground arith
at_least_trans (x ∷ a) (y ∷ b) (z ∷ c) h k = ground (arith, at_least_trans a b c)

-- one of these, with none above it
abbrev IsTop : Text → Text → List Text → Type 0
IsTop top best builds = IsAtLeast top best × All (IsAtLeast top) builds × Memᴰ top (best ∷ builds)

Memᴰ-over : (t a b : Text) (xs : List Text) → Memᴰ t (a ∷ xs) → Memᴰ t (a ∷ b ∷ xs)
Memᴰ-over t a b xs (Memᴰ.head e) = Memᴰ.head e
Memᴰ-over t a b xs (Memᴰ.tail m) = Memᴰ.tail (Memᴰ.tail m)

newer_of-IsTop : (best : Text) (builds : List Text) → IsTop (newer_of best builds) best builds
unfolding newer_of
newer_of-IsTop best [] = (key_less_irrefl (version_key best), tt, Memᴰ.head refl)
newer_of-IsTop best (b ∷ builds) = elim (Bool-cases (key_less (version_key best) (version_key b))) [
  | inl e ↦
      (let (top, rest, mem) = newer_of-IsTop b builds in
        subst (λ t. IsTop t best (b ∷ builds))
          (sym (ap (λ t. newer_of (if t then b else best) builds) e))
          (at_least_trans _ _ _ top (key_less_asym _ _ e), (top, rest), Memᴰ.tail mem))
  | inr e ↦
      (let (top, rest, mem) = newer_of-IsTop best builds in
        subst (λ t. IsTop t best (b ∷ builds))
          (sym (ap (λ t. newer_of (if t then b else best) builds) e))
          (top, (at_least_trans _ _ _ top e, rest), Memᴰ-over _ best b builds mem))
]

-- the newest of these builds, if there is one
abbrev pub IsNewest : List Text → Option Text → Type 0
IsNewest builds none = builds ≡ []
IsNewest builds (some b) = All (IsAtLeast b) builds × Memᴰ b builds

newest_of-IsNewest : (builds : List Text) → IsNewest builds (newest_of builds)
unfolding newest_of
newest_of-IsNewest [] = refl
newest_of-IsNewest (b ∷ builds) =
    let (top, rest, mem) = newer_of-IsTop b builds in ((top, rest), mem)

-- What newer_build() says of an installed build: one that is newer, DEFAULT_BUILD or a validated one,
-- or that no validated build is newer, and DEFAULT_BUILD is not.
abbrev pub IsNewer : Text → Option Text → List Text → Option Text → Type 0
IsNewer installed default builds (some b) =
    (key_less (version_key installed) (version_key b) ≡ true) × ((default ≡ some b) ⊎ Memᴰ b builds)
IsNewer installed default builds none =
    All (IsAtLeast installed) builds × ((b : Text) → default ≡ some b → IsAtLeast installed b)

if_newer-some :
    (installed : Text) (o : Option Text) (b : Text)
    → if_newer installed o ≡ some b
    → (o ≡ some b) × (key_less (version_key installed) (version_key b) ≡ true)
unfolding if_newer
if_newer-some installed none b h = cc
if_newer-some installed (some c) b h =
    elim (Bool-cases (not (is_empty c) && key_less (version_key installed) (version_key c))) [
      | inl e ↦ (let same : c ≡ b = ground arith in (ap some same, rw (← same) (ground arith)))
      | inr e ↦ ground arith
    ]

key_less-empty : (a : List ℕ) (b : Text) → is_empty b ≡ true → key_less a (version_key b) ≡ false
unfolding version_key is_empty
key_less-empty a [] e = key_less-nil a
key_less-empty a (c ∷ b) e = ground arith

if_newer-none :
    (installed : Text) (o : Option Text) (b : Text)
    → if_newer installed o ≡ none
    → o ≡ some b
    → IsAtLeast installed b
unfolding if_newer
if_newer-none installed none b h e = cc
if_newer-none installed (some c) b h e =
    let same : c ≡ b = cc in rw (← same) (ground (arith, key_less-empty (version_key installed) c))

none-newer :
    (installed : Text) (builds : List Text) (newest : Option Text)
    → IsNewest builds newest
    → if_newer installed newest ≡ none
    → All (IsAtLeast installed) builds
none-newer installed builds none h e = rw h tt
none-newer installed builds (some b) (top, mem) e =
    All-mono builds
      (λ c (q : IsAtLeast b c). at_least_trans _ _ _ (if_newer-none installed (some b) b e refl) q)
      top

newest-Memᴰ :
    (builds : List Text) (newest : Option Text) (b : Text)
    → IsNewest builds newest
    → newest ≡ some b
    → Memᴰ b builds
newest-Memᴰ builds none b h e = cc
newest-Memᴰ builds (some c) b (top, mem) e = let same : c ≡ b = cc in rw (← same) mem

module _ (lib : Library) (default : Option Text) (installed : Text) where
  newer_build-lem :
      (m : ℕ) (builds : List Text)
      → major_of (some installed) ≡ some m
      → builds_of lib (available lib.dirs) ≡ some builds
      → newer_build lib default (some installed)
        ≡ some (or_else (if_newer installed default) (if_newer installed (newest_of builds)))
  unfolding newer_build newest_build
  newer_build-lem m builds known validated = ground arith

  -- For an installed build whose version can be read, where every profile can be loaded, newer_build()
  -- gives a build that is newer, DEFAULT_BUILD or one that a profile has validated, or says that there is
  -- none, and then no validated build and not DEFAULT_BUILD is newer.
  pub newer_build-IsNewer :
      (m : ℕ) (builds : List Text)
      → major_of (some installed) ≡ some m
      → builds_of lib (available lib.dirs) ≡ some builds
      → (r : Option Text) × (newer_build lib default (some installed) ≡ some r)
        × IsNewer installed default builds r
  newer_build-IsNewer m builds known validated = (
    or_else (if_newer installed default) (if_newer installed (newest_of builds)),
    newer_build-lem m builds known validated,
    elim (Option-cases (if_newer installed default)) [
      | inr (b, e) ↦ rw e (let (q, less) = if_newer-some installed default b e in (less, inl q))
      | inl e ↦ elim (Option-cases (if_newer installed (newest_of builds))) [
        | inr (b, k) ↦
            rw (e, k)
              (let (q, less) = if_newer-some installed (newest_of builds) b k in
                (less, inr (newest-Memᴰ builds (newest_of builds) b (newest_of-IsNewest builds) q)))
        | inl k ↦
            rw (e, k)
              (
                none-newer installed builds (newest_of builds) (newest_of-IsNewest builds) k,
                λ b. if_newer-none installed default b e,
              )
      ]
    ],
  )
