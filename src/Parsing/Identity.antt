-- ===== src/Parsing/Identity.antt =====
-- app/instadroid/parsing.py: the keys that identify a post, and when two sightings are one post.
-- `weak` is is_weak_caption() (Parsing.Weak); times are whole seconds.
use instadroid.Prelude.{
  ℕ, ◌+◌, ◌-◌, max, Bool, true, false, not, ◌&&◌, ◌||◌, Option, none, some, [], ◌∷◌, ◌++◌, leb,
  if◌then◌else◌, Text, text_eq, starts_with, take,
}
use instadroid.Parsing.Words.{words, join, rstrip_ellipsis, before, newline, comma}

-- s[:n], kept shut
unfoldable pub prefix : ℕ → Text → Text
prefix n s = take n s

-- `caption or ""`
unfoldable pub or_empty : Option Text → Text
or_empty none = []
or_empty (some t) = t

unfoldable pub caption_key : Text → Text
caption_key caption = prefix 40 (join (words (before newline (rstrip_ellipsis caption))))

unfoldable pub flat_caption : Option Text → Text
flat_caption caption = join (words (rstrip_ellipsis (or_empty caption)))

is_empty : Text → Bool
is_empty [] = true
is_empty (c ∷ s) = false

unfoldable pub same_caption : (Text → Bool) → Option Text → Option Text → Bool
unfolding is_empty
same_caption weak stored shown =
    if weak (or_empty stored) || weak (or_empty shown)
    then true
    else (let a = flat_caption stored in
        let b = flat_caption shown in
        not (is_empty a) && (not (is_empty b) && (starts_with a b || starts_with b a)))

-- re.sub(r"\d+", "", s); `wide_digit` tells the digits beyond ASCII
unfoldable pub drop_digits : (ℕ → Bool) → Text → Text
drop_digits wide_digit [] = []
drop_digits wide_digit (c ∷ s) =
    if (leb b'0' c && leb c b'9') || (leb 128 c && wide_digit c)
    then drop_digits wide_digit s
    else c ∷ drop_digits wide_digit s

unfoldable pub alt_key : (ℕ → Bool) → Text → Text
alt_key wide_digit alt = drop_digits wide_digit (before comma alt)

-- _post_key(), for a card's username, caption and media description
unfoldable pub post_key : (ℕ → Bool) → Text → Text → Text → Text
post_key wide_digit username [] alt = username ++ b'|' ∷ alt_key wide_digit alt
post_key wide_digit username (c ∷ caption) alt = username ++ b'|' ∷ caption_key (c ∷ caption)

-- What same_post() compares; `precision` in seconds, none for a stored post.
pub record PostIdentity : Type 0 where
  pub username : Text
  pub caption : Option Text
  pub posted_at : Option ℕ
  pub precision : Option ℕ

unfoldable pub or_zero : Option ℕ → ℕ
or_zero none = 0
or_zero (some n) = n

-- abs(a - b)
unfoldable pub apart : ℕ → ℕ → ℕ
apart a b = (a - b) + (b - a)

unfoldable pub tolerance : Option ℕ → ℕ
tolerance precision = max (or_zero precision) 3600

unfoldable pub captions_agree : (Text → Bool) → Text → Text → Bool
captions_agree weak a b = if weak a || weak b then true else text_eq (prefix 200 a) (prefix 200 b)

unfoldable pub times_agree : Option ℕ → Option ℕ → ℕ → Bool
times_agree none _ tol = false
times_agree (some a) none tol = false
times_agree (some a) (some b) tol = leb (apart a b) tol

unfoldable pub same_post : (Text → Bool) → PostIdentity → PostIdentity → Bool
same_post weak existing candidate =
    if text_eq existing.username candidate.username
    then times_agree existing.posted_at candidate.posted_at (tolerance candidate.precision)
      && captions_agree weak (or_empty existing.caption) (or_empty candidate.caption)
    else false
