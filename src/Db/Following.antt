-- ===== src/Db/Following.antt =====
-- app/instadroid/db.py: the stored Following list and the refresh that is held back.
-- `following` and `following_pending` are lists of usernames; every row of `following` has the one
-- time of the last refresh, which is none of no rows. A percentage is a whole number, one below 0 held as
-- 0. none is an IntegrityError: a username is a primary key of both tables.
use instadroid.Prelude.{
  ℕ, ◌+◌, ◌*◌, Bool, true, not, ◌&&◌, Option, none, some, List, [], ◌∷◌, ltb, ◌==◌, if◌then◌else◌,
  Text, length, contains,
}

pub record Following : Type 0 where
  pub stored : List Text
  pub refreshed : Option ℕ
  pub pending : List Text

-- _following_state(): MAX(updated_at) of no rows is NULL
unfoldable pub following_state : Following → ℕ × Option ℕ
following_state f = (length f.stored, elim f.stored [ [] ↦ none | _ ∷ _ ↦ f.refreshed ])

-- older_than() of common.py, of a time that parse_iso() read
unfoldable pub older_than : Option ℕ → ℕ → ℕ → Bool
older_than none age now = true
older_than (some t) age now = ltb (t + age) now

unfoldable pub needs_following_refresh : Following → ℕ → ℕ → Bool
unfolding following_state older_than
needs_following_refresh f max_age now = older_than (following_state f).1 max_age now

-- the refresh is far shorter than the stored list
unfoldable pub is_shrunk : ℕ → ℕ → ℕ → Bool
is_shrunk shrink found stored = ltb 0 shrink && ltb (found * 100) (stored * shrink)

unfoldable pub is_distinct : List Text → Bool
is_distinct [] = true
is_distinct (u ∷ us) = not (contains u us) && is_distinct us

-- MAX(updated_at) of the rows that a refresh wrote
unfoldable pub refreshed_at : List Text → ℕ → Option ℕ
refreshed_at [] now = none
refreshed_at (u ∷ us) now = some now

-- store_following(): the new tables, and (found, stored) where the refresh was held back
unfoldable pub store_following :
    ℕ → Following → List Text → Bool → ℕ → Option (Following × Option (ℕ × ℕ))
store_following shrink f usernames force now =
    if not (is_distinct usernames)
    then none
    else (if not force && is_shrunk shrink (length usernames) (length f.stored)
        then some (
          record f { refreshed = refreshed_at f.stored now; pending = usernames },
          some (length usernames, length f.stored),
        )
        else some (
          record { stored = usernames; refreshed = refreshed_at usernames now; pending = [] },
          none,
        ))

unfoldable pub held_following : Following → Option (ℕ × ℕ)
held_following f = if length f.pending == 0 then none else some (length f.pending, length f.stored)

-- accept_following(): the new tables and the size of the list that was held
unfoldable pub accept_following : ℕ → Following → ℕ → Option (Following × ℕ)
accept_following shrink f now = elim f.pending [
  | [] ↦ some (f, 0)
  | u ∷ us ↦ elim (store_following shrink f (u ∷ us) true now) [
    | none ↦ none
    | some (f', held) ↦ some (f', length (u ∷ us))
  ]
]
