-- ===== src/Db/Allowlist.antt =====
-- What the held-back refresh protects: the stored Following list.
use instadroid.Prelude.{
  ℕ, zero, suc, ◌+◌, ◌*◌, ◌≤◌, ◌<◌, ◌≡◌, ◌≢◌, ◌↔◌, ◌⊎◌, inl, inr, refl, ap, ◌∙◌, true, false,
  Option, none, some, List, [], ◌∷◌, arith, ltb, Bool-cases, Text, length,
}
use instadroid.Db.Following.{
  Following, is_shrunk, is_distinct, refreshed_at, following_state, store_following, held_following,
  accept_following, needs_following_refresh,
}

-- What an automatic refresh leaves: none is an error, and the pair says that it was held back.
abbrev pub Guarded : ℕ → Following → List Text → ℕ → Option (Following × Option (ℕ × ℕ)) → Type 0
Guarded shrink f usernames now none = is_distinct usernames ≡ false
Guarded shrink f usernames now (some (f', none)) =
    (is_distinct usernames ≡ true)
    × (f'.stored ≡ usernames)
    × (f'.pending ≡ [])
    × ((shrink ≡ 0) ⊎ (length f.stored * shrink ≤ length usernames * 100))
    × (following_state f' ≡ (length usernames, refreshed_at usernames now))
Guarded shrink f usernames now (some (f', some (found, stored))) =
    (is_distinct usernames ≡ true)
    × (f'.stored ≡ f.stored)
    × (f'.pending ≡ usernames)
    × (found ≡ length usernames)
    × (stored ≡ length f.stored)
    × (found * 100 < stored * shrink)
    × (following_state f' ≡ (length f.stored, some now))

refreshed_at-state :
    (us pending : List Text) (now : ℕ)
    → following_state (record { stored = us; refreshed = refreshed_at us now; pending = pending })
      ≡ (length us, refreshed_at us now)
unfolding following_state refreshed_at
refreshed_at-state [] pending now = refl
refreshed_at-state (u ∷ us) pending now = refl

is_shrunk-lt :
    (shrink found stored : ℕ)
    → is_shrunk shrink found stored ≡ true
    → (found * 100 < stored * shrink) × (0 < stored)
unfolding is_shrunk
is_shrunk-lt shrink found zero h = ground arith
is_shrunk-lt shrink found (suc stored) h = (ground arith, omega arith)

is_shrunk-le :
    (shrink found stored : ℕ)
    → is_shrunk shrink found stored ≡ false
    → (shrink ≡ 0) ⊎ (stored * shrink ≤ found * 100)
unfolding is_shrunk
is_shrunk-le shrink found stored h = elim (Bool-cases (ltb 0 shrink)) [
  | inl on ↦ inr (ground (arith, on))
  | inr off ↦ inl (ground (arith, off))
]

refreshed_some : (us : List Text) (now : ℕ) → 0 < length us → refreshed_at us now ≡ some now
unfolding refreshed_at
refreshed_some [] now h = absurd (omega arith)
refreshed_some (u ∷ us) now h = refl

-- An automatic refresh raises exactly if a name is in it twice. Otherwise it replaces the stored list,
-- only by one at least as long as the percentage of it asks for, or leaves it as it is and is held, names
-- and counts, for a person. The list then counts as refreshed now, unless it is left with no row: then it
-- counts as never refreshed.
pub store_following-guards :
    (shrink : ℕ) (f : Following) (usernames : List Text) (now : ℕ)
    → Guarded shrink f usernames now (store_following shrink f usernames false now)
unfolding store_following
store_following-guards shrink f usernames now = elim (Bool-cases (is_distinct usernames)) [
  | inr twice ↦ rw twice twice
  | inl once ↦ elim (Bool-cases (is_shrunk shrink (length usernames) (length f.stored))) [
    | inl short ↦
        (let (less, more) = is_shrunk-lt shrink (length usernames) (length f.stored) short in
          rw (once, short)
            (
              once,
              refl,
              refl,
              refl,
              refl,
              less,
              refreshed_at-state f.stored usernames now
                  ∙ ap (λ t. (length f.stored, t)) (refreshed_some f.stored now more),
            ))
    | inr long ↦
        rw (once, long)
          (
            once,
            refl,
            refl,
            is_shrunk-le shrink (length usernames) (length f.stored) long,
            refreshed_at-state usernames [] now,
          )
  ]
]

store_following-forced :
    (shrink : ℕ) (f : Following) (us : List Text) (now : ℕ)
    → is_distinct us ≡ true
    → store_following shrink f us true now
      ≡ some (record { stored = us; refreshed = refreshed_at us now; pending = [] }, none)
unfolding store_following
store_following-forced shrink f us now once = rw once refl

-- A held refresh that found anyone shows as held with its counts, and accepting it makes it the
-- stored list, whatever its length; nothing is held after that.
accept_following-stores :
    (shrink : ℕ) (f : Following) (u : Text) (us : List Text) (later : ℕ)
    → f.pending ≡ u ∷ us
    → is_distinct (u ∷ us) ≡ true
    → (held_following f ≡ some (length (u ∷ us), length f.stored))
      × (accept_following shrink f later
          ≡ some
              (record { stored = u ∷ us; refreshed = some later; pending = [] }, length (u ∷ us)))
unfolding accept_following held_following refreshed_at
accept_following-stores shrink f u us later h once = (
  rw h (ground arith),
  rw (h, accept_following, store_following-forced shrink f (u ∷ us) later once) refl,
)

-- After a refresh with anyone on the list that it leaves, the next one is due once more than `max_age` has
-- passed, held back or not.
refreshed_at-schedule :
    (us pending : List Text) (now max_age later : ℕ)
    → us ≢ []
    → (needs_following_refresh
          (record { stored = us; refreshed = refreshed_at us now; pending = pending })
          max_age
          later
        ≡ true)
      ↔ (now + max_age < later)
unfolding needs_following_refresh refreshed_at
refreshed_at-schedule [] pending now max_age later n = absurd (n refl)
refreshed_at-schedule (u ∷ us) pending now max_age later n = ground arith
