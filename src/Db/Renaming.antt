-- ===== src/Db/Renaming.antt =====
-- What a rename moves, and what a dismissed suspicion can no longer do (app/instadroid/db.py).
use instadroid.Prelude.{
  ℕ, ◌+◌, ◌≡◌, ◌≢◌, refl, sym, Bool, true, false, not, ◌&&◌, ◌||◌, some, List, [], ◌∷◌, ◌++◌, arith,
  if◌then◌else◌, Text, text_eq, text_eq_iff, text_eq_refl, text_ne, opt_eq_iff, keep, any, map,
  contains, All, All-kept, All-mono, any-append, any-keep-false, any-keep-not, Bool-cases, inl, inr,
}
use instadroid.Db.Posts.{StoredPost}
use instadroid.Db.Renames.{
  Candidate, Tables, avatar_of, same_pair, same_candidate, account_of, rename_posts, posts_of,
  rename_following, merged_avatar, rename_account, is_pair, is_dismissed, note_rename_candidate,
  dismiss_rename, pairs, candidate_pairs, count, is_confirmed, confirmed_renames,
}

posts_of-rename_old :
    (old new : Text) (posts : List StoredPost)
    → old ≢ new
    → posts_of old (rename_posts old new posts) ≡ 0
unfolding posts_of rename_posts
posts_of-rename_old old new [] n = refl
posts_of-rename_old old new (p ∷ posts) n =
    ground (arith, text_ne new old (λ e. n (sym e)), posts_of-rename_old old new posts n)

posts_of-rename_new :
    (old new : Text) (posts : List StoredPost)
    → old ≢ new
    → posts_of new (rename_posts old new posts) ≡ posts_of new posts + posts_of old posts
unfolding posts_of rename_posts
posts_of-rename_new old new [] n = omega arith
posts_of-rename_new old new (p ∷ posts) n = ground (
  arith,
  text_eq_refl new,
  text_eq_iff p.username old,
  text_eq_iff p.username new,
  posts_of-rename_new old new posts n,
)

contains-keep :
    (old : Text) (names : List Text) → contains old (keep (λ v. not (text_eq v old)) names) ≡ false
unfolding contains keep
contains-keep old [] = refl
contains-keep old (v ∷ names) = ground (arith, contains-keep old names)

contains-map :
    (old new : Text) (names : List Text)
    → old ≢ new
    → contains old (map (λ v. if text_eq v old then new else v) names) ≡ false
unfolding contains
contains-map old new [] n = refl
contains-map old new (v ∷ names) n =
    ground (arith, text_ne new old (λ e. n (sym e)), contains-map old new names n)

-- A rename to another name moves every post of the old one, and reports how many: the new name has
-- its own posts and those, the old name has none and is no longer on the Following list.
pub rename_account-moves :
    (old new : Text) (t : Tables)
    → old ≢ new
    → let (t', moved, dropped) = rename_account old new t in
      (moved ≡ posts_of old t.posts)
      × (posts_of old t'.posts ≡ 0)
      × (posts_of new t'.posts ≡ posts_of new t.posts + posts_of old t.posts)
      × (contains old t'.following ≡ false)
      × (t'.dismissals ≡ t.dismissals)
unfolding rename_account rename_following
rename_account-moves old new t n = rw (text_ne old new n) (
  refl,
  posts_of-rename_old old new t.posts n,
  posts_of-rename_new old new t.posts n,
  following_gone (contains new t.following) refl,
  refl,
)
  where
    following_gone :
        (b : Bool)
        → contains new t.following ≡ b
        → contains old (rename_following old new t.following) ≡ false
    following_gone true e = rw e (contains-keep old t.following)
    following_gone false e = rw e (contains-map old new t.following n)

-- The avatar file that a rename deletes was the old account's, and the merged account has another.
pub rename_account-avatar :
    (old new f : Text) (t : Tables)
    → (rename_account old new t).2 ≡ some f
    → (merged_avatar (account_of old t.accounts) (account_of new t.accounts) ≢ some f) × (old ≢ new)
unfolding rename_account
rename_account-avatar old new f t e = elim (Bool-cases (text_eq old new)) [
  | inl same ↦ absurd (ground (arith, same))
  | inr other ↦ (
    λ kept. ground (
      arith,
      other,
      opt_eq_iff (avatar_of (account_of old t.accounts))
          (merged_avatar (account_of old t.accounts) (account_of new t.accounts)),
    ),
    λ same. ground (arith, other, text_eq_iff old new),
  )
]

-- Once a suspicion is dismissed it stays so.
dismiss_rename-dismissed :
    (old new : Text) (t : Tables) → is_dismissed old new (dismiss_rename old new t).0 ≡ true
unfolding dismiss_rename is_dismissed any same_pair
dismiss_rename-dismissed old new t = elim (Bool-cases (is_dismissed old new t)) [
  | inl before ↦ rw before before
  | inr now ↦
      rw (now, is_dismissed)
        (ground (
          arith,
          any-append (same_pair old new) t.dismissals ((old, new) ∷ []),
          text_eq_refl old,
          text_eq_refl new,
        ))
]

-- No evidence for the pair is left.
abbrev pub HasNone : Text → Text → List Candidate → Type 0
HasNone old new cs = any (is_pair old new) cs ≡ false

-- Seeing more posts of the suspected account, or dismissing other pairs.
pub data Later : Type 0 where
  note : Text → Text → Text → ℕ → Later
  dismiss : Text → Text → Later

unfoldable pub later : Later → Tables → Tables
later (note old new post_id now) t = note_rename_candidate old new post_id now t
later (dismiss old new) t = (dismiss_rename old new t).0

unfoldable pub laters : List Later → Tables → Tables
unfolding later
laters [] t = t
laters (s ∷ steps) t = laters steps (later s t)

-- The pair was dismissed, and no evidence for it is left.
record IsSettled (old new : Text) (t : Tables) : Type 0 where
  dismissed : is_dismissed old new t ≡ true
  bare : HasNone old new t.candidates

appended :
    (old new a b post_id : Text) (now : ℕ) (cs : List Candidate)
    → HasNone old new cs
    → (text_eq a old && text_eq b new) ≡ false
    → HasNone old new (cs ++ record { old = a; new = b; post_id = post_id; seen_at = now } ∷ [])
unfolding any is_pair
appended old new a b post_id now cs h other =
    rw (any-append (is_pair old new) cs _, h) (ground arith)

-- a pair that is not dismissed is another one
other_pair :
    (old new a b : Text) (t : Tables)
    → is_dismissed old new t ≡ true
    → is_dismissed a b t ≡ false
    → (text_eq a old && text_eq b new) ≡ false
other_pair old new a b t h k = elim (Bool-cases (text_eq a old && text_eq b new)) [
  | inl same ↦
      let ea : a ≡ old = ground (arith, text_eq_iff a old) in
      let eb : b ≡ new = ground (arith, text_eq_iff b new) in
      let clash : is_dismissed a b t ≡ is_dismissed old new t = cc (ea, eb) in cc (clash, h, k)
  | inr other ↦ other
]

note-IsSettled :
    (old new a b post_id : Text) (now : ℕ) (t : Tables)
    → IsSettled old new t
    → IsSettled old new (note_rename_candidate a b post_id now t)
unfolding note_rename_candidate
note-IsSettled old new a b post_id now t h =
    let known = is_dismissed a b t || any (same_candidate a b post_id) t.candidates in
    elim (Bool-cases known) [
      | inl old_news ↦ rw old_news h
      | inr fresh ↦
          let other = other_pair old new a b t h.dismissed (ground arith) in
          let bare : any (is_pair old new)
                (t.candidates ++ record { old = a; new = b; post_id = post_id; seen_at = now } ∷ [])
              ≡ false =
            (appended old new a b post_id now t.candidates h.bare other) in
          rw fresh (record { dismissed = unfold is_dismissed in h.dismissed; bare = bare })
    ]

dismiss-IsSettled :
    (old new a b : Text) (t : Tables)
    → IsSettled old new t
    → IsSettled old new (dismiss_rename a b t).0
unfolding dismiss_rename is_dismissed
dismiss-IsSettled old new a b t h = record {
  dismissed =
      ground (arith, h.dismissed, any-append (same_pair old new) t.dismissals ((a, b) ∷ []));
  bare = any-keep-false (is_pair old new) (λ c. not (is_pair a b c)) t.candidates h.bare;
}

laters-IsSettled :
    (old new : Text) (steps : List Later) (t : Tables)
    → IsSettled old new t
    → IsSettled old new (laters steps t)
unfolding laters
laters-IsSettled old new [] t h = h
laters-IsSettled old new (note a b post_id now ∷ steps) t h =
    laters-IsSettled old new steps _ (note-IsSettled old new a b post_id now t h)
laters-IsSettled old new (dismiss a b ∷ steps) t h =
    laters-IsSettled old new steps _ (dismiss-IsSettled old new a b t h)

any-pairs :
    (old new : Text) (cs : List Candidate)
    → any (is_pair old new) cs ≡ false
    → any (same_pair old new) (pairs cs) ≡ false
unfolding any pairs is_pair same_pair
any-pairs old new [] h = refl
any-pairs old new (c ∷ cs) h = ground (arith, any-pairs old new cs)

-- A suspicion that a person dismissed never comes back: whatever posts are seen later, and whatever
-- else is dismissed, the pair is not among the suspected renames.
dismiss_rename-final :
    (old new : Text) (t : Tables) (steps : List Later)
    → any (same_pair old new) (candidate_pairs (laters steps (dismiss_rename old new t).0)) ≡ false
unfolding candidate_pairs
dismiss_rename-final old new t steps =
    let settled_now : IsSettled old new (dismiss_rename old new t).0 = record {
      dismissed = dismiss_rename-dismissed old new t;
      bare = unfold dismiss_rename in any-keep-not (is_pair old new) t.candidates;
    } in
    let after = laters-IsSettled old new steps _ settled_now in
    any-pairs old new _ (any-keep-false (is_pair old new) _ _ after.bare)

-- A rename that is applied without asking is one that the Following list bears out: it has the new
-- name and not the old one, and no other suspicion shares either name.
confirmed_renames_sound :
    (t : Tables)
    → All
        (λ p.
          (contains p.1 t.following ≡ true)
          × (contains p.0 t.following ≡ false)
          × (count p.0 (map (λ q. q.0) (candidate_pairs t)) ≡ 1)
          × (count p.1 (map (λ q. q.1) (candidate_pairs t)) ≡ 1))
        (confirmed_renames t)
unfolding confirmed_renames is_confirmed
confirmed_renames_sound t =
    All-mono _ (λ p e. ground arith)
      (All-kept (is_confirmed t (candidate_pairs t)) (candidate_pairs t))
