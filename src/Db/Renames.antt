-- ===== src/Db/Renames.antt =====
-- app/instadroid/db.py: accounts, suspected renames and what a rename moves.
use instadroid.Prelude.{
  ℕ, suc, Bool, not, ◌&&◌, ◌||◌, Option, none, some, List, [], ◌∷◌, ◌++◌, ◌==◌, if◌then◌else◌, Text,
  text_eq, opt_eq, keep, any, find?, length, map, contains,
}
use instadroid.Db.Posts.{StoredPost, or_text}

pub record Account : Type 0 where
  pub username : Text
  pub account_id : Option Text
  pub avatar_file : Option Text
  pub avatar_updated_at : Option ℕ

pub record Candidate : Type 0 where
  pub old : Text
  pub new : Text
  pub post_id : Text
  pub seen_at : ℕ

-- The tables that a rename touches. `following` holds usernames, `dismissals` pairs.
pub record Tables : Type 0 where
  pub posts : List StoredPost
  pub accounts : List Account
  pub following : List Text
  pub candidates : List Candidate
  pub dismissals : List (Text × Text)

is_account : Text → Account → Bool
is_account u a = text_eq a.username u

unfoldable pub account_of : Text → List Account → Option Account
unfolding is_account
account_of u accounts = find? (is_account u) accounts

-- the upsert of upsert_account() with an avatar, on the rows
unfoldable pub upsert_avatar : Text → Text → ℕ → List Account → List Account
upsert_avatar u avatar now [] =
    record {
      username = u;
      account_id = none;
      avatar_file = some avatar;
      avatar_updated_at = some now;
    }
    ∷ []
upsert_avatar u avatar now (a ∷ accounts) =
    if text_eq a.username u
    then record a { avatar_file = some avatar; avatar_updated_at = some now } ∷ accounts
    else a ∷ upsert_avatar u avatar now accounts

-- INSERT OR IGNORE of a bare username
unfoldable pub insert_account : Text → List Account → List Account
unfolding is_account
insert_account u accounts =
    if any (is_account u) accounts
    then accounts
    else accounts
      ++ record { username = u; account_id = none; avatar_file = none; avatar_updated_at = none }
        ∷ []

unfoldable pub upsert_account : Text → Option Text → ℕ → List Account → List Account
upsert_account u none now accounts = insert_account u accounts
upsert_account u (some []) now accounts = insert_account u accounts
upsert_account u (some (c ∷ avatar)) now accounts = upsert_avatar u (c ∷ avatar) now accounts

-- UPDATE posts SET username=new WHERE username=old: the rows and how many changed
unfoldable pub rename_posts : Text → Text → List StoredPost → List StoredPost
rename_posts old new [] = []
rename_posts old new (p ∷ posts) =
    (if text_eq p.username old then record p { username = new } else p) ∷ rename_posts old new posts

unfoldable pub posts_of : Text → List StoredPost → ℕ
posts_of u [] = 0
posts_of u (p ∷ posts) = if text_eq p.username u then suc (posts_of u posts) else posts_of u posts

account_id_of : Option Account → Option Text
account_id_of none = none
account_id_of (some a) = a.account_id

unfoldable pub avatar_of : Option Account → Option Text
avatar_of none = none
avatar_of (some a) = a.avatar_file

-- COALESCE(a, b)
coalesce : Option Text → Option Text → Option Text
coalesce none b = b
coalesce (some a) b = some a

-- the INSERT ... ON CONFLICT of rename_account()
unfoldable pub fold_account : Text → Option Text → Option Text → List Account → List Account
unfolding coalesce
fold_account u account_id avatar [] =
    record { username = u; account_id = account_id; avatar_file = avatar; avatar_updated_at = none }
    ∷ []
fold_account u account_id avatar (a ∷ accounts) =
    if text_eq a.username u
    then record a { account_id = account_id; avatar_file = coalesce a.avatar_file avatar }
      ∷ accounts
    else a ∷ fold_account u account_id avatar accounts

is_not : Text → Account → Bool
is_not u a = not (text_eq a.username u)

other_name : Text → Text → Bool
other_name u v = not (text_eq v u)

-- UPDATE OR IGNORE following, then DELETE of the old name
unfoldable pub rename_following : Text → Text → List Text → List Text
unfolding other_name
rename_following old new names =
    if contains new names
    then keep (other_name old) names
    else map (λ v. if text_eq v old then new else v) names

unfoldable pub mentions : Text → Candidate → Bool
mentions u c = text_eq c.old u || text_eq c.new u

unfoldable pub settled : Text → Text → Candidate → Bool
settled old new c = not (mentions old c || mentions new c)

unfoldable pub merged_avatar : Option Account → Option Account → Option Text
merged_avatar old_row new_row = or_text (avatar_of new_row) (avatar_of old_row)

-- rename_account(): the tables, the posts moved, and the avatar file to delete
unfoldable pub rename_account : Text → Text → Tables → Tables × ℕ × Option Text
unfolding account_id_of is_not
rename_account old new t =
    if text_eq old new
    then (t, 0, none)
    else (let old_row = account_of old t.accounts in
        let new_row = account_of new t.accounts in
        let account_id = or_text (account_id_of new_row) (account_id_of old_row) in
        let avatar = merged_avatar old_row new_row in
        (
          record {
            posts = rename_posts old new t.posts;
            accounts = keep (is_not old) (fold_account new account_id avatar t.accounts);
            following = rename_following old new t.following;
            candidates = keep (settled old new) t.candidates;
            dismissals = t.dismissals;
          },
          posts_of old t.posts,
          (if opt_eq (avatar_of old_row) avatar then none else avatar_of old_row),
        ))

unfoldable pub same_pair : Text → Text → Text × Text → Bool
same_pair old new (a, b) = text_eq a old && text_eq b new

unfoldable pub same_candidate : Text → Text → Text → Candidate → Bool
same_candidate old new post_id c =
    text_eq c.old old && (text_eq c.new new && text_eq c.post_id post_id)

unfoldable pub is_pair : Text → Text → Candidate → Bool
is_pair old new c = text_eq c.old old && text_eq c.new new

unfoldable pub is_dismissed : Text → Text → Tables → Bool
is_dismissed old new t = any (same_pair old new) t.dismissals

-- note_rename_candidate()
unfoldable pub note_rename_candidate : Text → Text → Text → ℕ → Tables → Tables
note_rename_candidate old new post_id now t =
    if is_dismissed old new t || any (same_candidate old new post_id) t.candidates
    then t
    else record t {
      candidates =
          t.candidates ++ record { old = old; new = new; post_id = post_id; seen_at = now } ∷ [];
    }

-- dismiss_rename(): the tables and how many candidates went
unfoldable pub dismiss_rename : Text → Text → Tables → Tables × ℕ
dismiss_rename old new t = (
  record t {
    dismissals = if is_dismissed old new t then t.dismissals else t.dismissals ++ (old, new) ∷ [];
    candidates = keep (λ c. not (is_pair old new c)) t.candidates;
  },
  length (keep (is_pair old new) t.candidates),
)

-- the JOIN of rename_candidates(): the post is still stored under the old name
unfoldable pub stands : List StoredPost → Candidate → Bool
stands posts c = any (λ p. text_eq p.id c.post_id && text_eq p.username c.old) posts

-- the names of rename_candidates(), each pair once
unfoldable pub pairs : List Candidate → List (Text × Text)
pairs [] = []
pairs (c ∷ cs) =
    let rest = pairs cs in if any (same_pair c.old c.new) rest then rest else (c.old, c.new) ∷ rest

unfoldable pub candidate_pairs : Tables → List (Text × Text)
candidate_pairs t = pairs (keep (stands t.posts) t.candidates)

-- rename_candidates(): (old, new, posts seen), in no particular order; an id is that of one post
unfoldable pub rename_candidates : Tables → List (Text × Text × ℕ)
rename_candidates t =
    map (λ p. (p.0, p.1, length (keep (λ c. is_pair p.0 p.1 c && stands t.posts c) t.candidates)))
      (candidate_pairs t)

-- the count of a name in a list of names
unfoldable pub count : Text → List Text → ℕ
count u [] = 0
count u (v ∷ vs) = if text_eq v u then suc (count u vs) else count u vs

unfoldable pub is_confirmed : Tables → List (Text × Text) → Text × Text → Bool
is_confirmed t ps (old, new) =
    contains new t.following
    && (not (contains old t.following)
        && (count old (map (λ p. p.0) ps) == 1 && count new (map (λ p. p.1) ps) == 1))

-- confirmed_renames(): the pairs, in no particular order
unfoldable pub confirmed_renames : Tables → List (Text × Text)
confirmed_renames t = let ps = candidate_pairs t in keep (is_confirmed t ps) ps
