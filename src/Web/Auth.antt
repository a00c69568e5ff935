-- ===== src/Web/Auth.antt =====
-- authorized(), cross_site() and require_token() of app/feedserver/auth.py, and scraper_health() of
-- app/feedserver/status.py. What Starlette reads of a request is a record; the hex HMAC of a media path,
-- Base64 with what follows the first ":" of it, and `str.lower` are parameters.
use instadroid.Prelude.{
  ℕ, ◌+◌, ◌-◌, ◌*◌, Bool, true, false, not, ◌&&◌, ◌||◌, Option, none, some, or_else, List, [], ◌∷◌,
  ltb, ◌==◌, if◌then◌else◌, Text, codes, text_eq, starts_with, contains, any, drop,
}
use mathlib.Core.List.{reverse}
use instadroid.Prelude.Strip.{strip}
use instadroid.Feed.Cards.{is_empty}

-- an absent query parameter or header that the code reads with a default of "" is empty
pub record Request : Type 0 where
  pub path : Text
  pub method : Text
  pub token : Text
  pub sig : Text
  pub authorization : Text
  pub origin : Option Text
  pub base : Text

pub record Crypto : Type 0 where
  pub media_sig : Text → Text
  pub password : Text → Option Text
  pub lower : Text → Text

-- s.partition(" "): what stands before the first space, and after it
unfoldable pub partition : Text → Text × Text
partition [] = ([], [])
partition (c ∷ s) = let (a, b) = partition s in if c == 32 then ([], s) else (c ∷ a, b)

drop_slashes : Text → Text
drop_slashes [] = []
drop_slashes (c ∷ s) = if c == 47 then drop_slashes s else c ∷ s

-- origin.rstrip("/")
unfoldable pub rstrip_slash : Text → Text
unfolding drop_slashes
rstrip_slash s = reverse (drop_slashes (reverse s))

unfoldable pub is_ascii : Text → Bool
is_ascii [] = true
is_ascii (c ∷ s) = ltb c 128 && is_ascii s

-- hmac.compare_digest() of two strings: none is a TypeError
unfoldable pub compare_digest : Text → Text → Option Bool
compare_digest a b = if is_ascii a && is_ascii b then some (text_eq a b) else none

-- a request that is passed on, the status of a refusal, or an exception
pub data Reply : Type 0 where
  passed_on : Reply
  refused : ℕ → Reply
  crashed : Reply

-- require_token() of what authorized() says
unfoldable pub reply_of : Option Bool → Reply
reply_of none = crashed
reply_of (some passes) = if passes then passed_on else refused 401

module _ (c : Crypto) where
  -- the credentials of the Authorization header
  unfoldable pub presented_by : Text → List Text
  presented_by header =
      let (scheme, credentials) = partition header in
      if text_eq (c.lower scheme) (codes "bearer")
      then strip credentials ∷ []
      else (if text_eq (c.lower scheme) (codes "basic")
          then (elim (c.password (strip credentials)) [ none ↦ [] | some p ↦ p ∷ [] ])
          else [])

  -- whether a /media/ path has its signature
  unfoldable pub is_signed : Request → Option Bool
  is_signed r =
      if starts_with r.path (codes "/media/")
      then compare_digest r.sig (c.media_sig (drop 7 r.path))
      else some false

  unfoldable pub presents : Text → Request → Bool
  presents feed_token r =
      any (λ p. not (is_empty p) && text_eq p feed_token) (r.token ∷ presented_by r.authorization)

  -- authorized(); none is a TypeError
  unfoldable pub authorized : Text → Request → Option Bool
  authorized feed_token r =
      if is_empty feed_token || text_eq r.path (codes "/health")
      then some true
      else elim (is_signed r) [ none ↦ none | some signed ↦ some (signed || presents feed_token r) ]

  unfoldable pub is_safe_method : Text → Bool
  is_safe_method m = contains m (codes "GET" ∷ codes "HEAD" ∷ codes "OPTIONS" ∷ [])

  unfoldable pub cross_site : Text → Request → Bool
  cross_site public_url r = elim r.origin [
    | none ↦ false
    | some o ↦
        if is_safe_method r.method || is_empty o
        then false
        else not (contains (rstrip_slash o) (public_url ∷ r.base ∷ []))
  ]

  unfoldable pub require_token : Text → Text → Request → Reply
  require_token feed_token public_url r =
      if cross_site public_url r then refused 403 else reply_of (authorized feed_token r)

pub data Health : Type 0 where
  healthy : Health
  overdue : ℕ → Health
  failing : ℕ → Health

unfoldable pub is_longer : Option ℕ → ℕ → ℕ → Bool
is_longer none now limit = false
is_longer (some t) now limit = ltb limit (now - t)

age : Option ℕ → ℕ → ℕ
age none now = 0
age (some t) now = now - t

-- scraper_health(), with POLL_MAX_HOURS in seconds and the ages of its messages in seconds
unfoldable pub scraper_health : ℕ → Option ℕ → Option ℕ → Option ℕ → ℕ → Health
unfolding age
scraper_health poll_max last_finished last_ok first_started now =
    let reference = or_else last_ok first_started in
    if is_longer last_finished now (poll_max + 1800)
    then overdue (age last_finished now)
    else (if is_longer reference now (2 * poll_max + 3600)
        then failing (age reference now)
        else healthy)
