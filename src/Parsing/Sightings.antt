-- ===== src/Parsing/Sightings.antt =====
-- `same_post` and `same_caption` of app/instadroid/parsing.py as relations.
use instadroid.Prelude.{
  ℕ, ◌≤◌, ◌≡◌, max, Bool, true, ◌||◌, ◌&&◌, arith, Text, text_eq, text_eq_iff, Option, none, some,
  Bool-cases, inl, inr, ◌⊎◌, ◌↔◌,
}
use instadroid.Parsing.Identity.{
  PostIdentity, prefix, same_post, times_agree, captions_agree, same_caption, or_empty, or_zero,
  tolerance, apart,
}

-- Both times are known, and at most `tol` seconds apart.
abbrev pub AreClose : Option ℕ → Option ℕ → ℕ → Type 0
AreClose none b tol = ⊥
AreClose (some a) none tol = ⊥
AreClose (some a) (some b) tol = apart a b ≤ tol

times_agree_iff : (a b : Option ℕ) (tol : ℕ) → (times_agree a b tol ≡ true) ↔ AreClose a b tol
unfolding times_agree
times_agree_iff none b tol = ground arith
times_agree_iff (some a) none tol = ground arith
times_agree_iff (some a) (some b) tol = ground arith

-- One caption is weak, or both start alike.
abbrev pub Agree : (Text → Bool) → Text → Text → Type 0
Agree weak a b = ((weak a || weak b) ≡ true) ⊎ (prefix 200 a ≡ prefix 200 b)

captions_agree_iff :
    (weak : Text → Bool) (a b : Text) → (captions_agree weak a b ≡ true) ↔ Agree weak a b
unfolding captions_agree
captions_agree_iff weak a b = ground (arith, text_eq_iff (prefix 200 a) (prefix 200 b))

and_iff : (p q : Bool) → ((p && q) ≡ true) ↔ ((p ≡ true) × (q ≡ true))
and_iff p q = ground arith

-- Two sightings are one post exactly when they share the author, both show a time, the times lie
-- within the candidate's precision (an hour at least), and one caption is weak or the two agree in
-- their first 200 characters.
same_post_iff :
    (weak : Text → Bool) (e c : PostIdentity)
    → (same_post weak e c ≡ true) ↔ (
        (e.username ≡ c.username)
        × AreClose e.posted_at c.posted_at (max (or_zero c.precision) 3600)
        × Agree weak (or_empty e.caption) (or_empty c.caption))
unfolding same_post tolerance
same_post_iff weak e c =
    let tol = max (or_zero c.precision) 3600 in
    let (t→, t←) = times_agree_iff e.posted_at c.posted_at tol in
    let (a→, a←) = captions_agree_iff weak (or_empty e.caption) (or_empty c.caption) in
    let (u→, u←) = text_eq_iff e.username c.username in
    elim (Bool-cases (text_eq e.username c.username)) [
      | inl same ↦ rw same (
        λ h. let (x, y) = (and_iff _ _).0 h in (u→ same, t→ x, a→ y),
        λ (_, x, y). (and_iff _ _).1 (t← x, a← y),
      )
      | inr other ↦ rw other (λ h. cc, λ (u, x, y). cc (other, u← u))
    ]

-- Whether a stored caption and a shown one are the same does not depend on which is which.
pub same_caption_comm :
    (weak : Text → Bool) (a b : Option Text) → same_caption weak a b ≡ same_caption weak b a
unfolding same_caption
same_caption_comm weak a b = let x = or_empty a in let y = or_empty b in ground arith
