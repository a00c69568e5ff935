-- ===== src/Pages/Filters.antt =====
-- PostFilter of app/feedserver/queries.py. The clauses of the
-- WHERE are tests of a row; LIKE is SQLite's, where a run and any character stand for % and _, a
-- backslash takes the next character as it is, ASCII letters match in either case, and a NUL ends the
-- pattern and the text.
use instadroid.Prelude.{
  ℕ, ◌+◌, Bool, true, false, not, ◌&&◌, ◌||◌, Option, none, some, List, [], ◌∷◌, ◌++◌, leb, ◌==◌,
  if◌then◌else◌, Text, text_eq, contains,
}
use instadroid.Parsing.Identity.{or_empty}
use instadroid.Parsing.Words.{before}
use instadroid.Db.Posts.{StoredPost, truthy}
use instadroid.Feed.Cards.{is_empty}
use instadroid.Retention.Pruning.{age_of}

abbrev pub percent : ℕ
percent = b'%'

abbrev pub underscore : ℕ
underscore = b'_'

abbrev pub backslash : ℕ
backslash = 92

pub is_special : ℕ → Bool
is_special c = c == backslash || c == percent || c == underscore

-- re.sub(r"([\\%_])", r"\\\1", q)
unfoldable pub escaped : Text → Text
unfolding is_special
escaped [] = []
escaped (c ∷ s) = if is_special c then backslash ∷ c ∷ escaped s else c ∷ escaped s

unfoldable pub like_pattern : Text → Text
like_pattern q = percent ∷ (escaped q ++ (percent ∷ []))

pub data Wild : Type 0 where
  run : Wild
  any_one : Wild
  exact : ℕ → Wild
  never : Wild

-- a pattern's parts; the flag says that the character before was the escape
unfoldable pub wilds : Bool → Text → List Wild
wilds false [] = []
wilds true [] = never ∷ []
wilds true (c ∷ p) = exact c ∷ wilds false p
wilds false (c ∷ p) =
    if c == backslash
    then wilds true p
    else (if c == percent then run else if c == underscore then any_one else exact c)
      ∷ wilds false p

-- ASCII case folding
unfoldable pub fold_case : ℕ → ℕ
fold_case c = if leb 65 c && leb c 90 then c + 32 else c

-- a test of the text or of a text behind it
unfoldable pub some_tail : (Text → Bool) → Text → Bool
some_tail f [] = f []
some_tail f (c ∷ s) = f (c ∷ s) || some_tail f s

unfoldable pub wild_match : List Wild → Text → Bool
wild_match [] s = is_empty s
wild_match (run ∷ p) s = some_tail (wild_match p) s
wild_match (any_one ∷ p) [] = false
wild_match (any_one ∷ p) (c ∷ s) = wild_match p s
wild_match (exact x ∷ p) [] = false
wild_match (exact x ∷ p) (c ∷ s) = (fold_case x == fold_case c) && wild_match p s
wild_match (never ∷ p) s = false

-- s LIKE pattern ESCAPE '\', where NULL is like nothing
unfoldable pub like : Text → Option Text → Bool
like pattern none = false
like pattern (some s) = wild_match (wilds false (before 0 pattern)) (before 0 s)

pub record PostFilter : Type 0 where
  pub user : Option Text
  pub kinds : List Text
  pub since : Option ℕ
  pub q : Option Text

in_kinds : List Text → Option Text → Bool
in_kinds [] kind = true
in_kinds (k ∷ ks) none = false
in_kinds (k ∷ ks) (some kind) = contains kind (k ∷ ks)

since_ok : Option ℕ → StoredPost → Bool
since_ok none p = true
since_ok (some t) p = leb t (age_of p)

q_ok : Option Text → StoredPost → Bool
unfolding like like_pattern
q_ok q p = not (truthy q) || like (like_pattern (or_empty q)) p.caption

-- PostFilter.where()
unfoldable pub passes : PostFilter → StoredPost → Bool
unfolding in_kinds since_ok q_ok
passes f p =
    (not (truthy f.user) || text_eq p.username (or_empty f.user))
    && (in_kinds f.kinds p.kind && (since_ok f.since p && q_ok f.q p))
