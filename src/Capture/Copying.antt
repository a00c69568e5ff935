-- ===== src/Capture/Copying.antt =====
-- fetch_permalink(), _poll_clipboard(), _clear_clipboard(), reset_last_url() and _leave_sheet() of
-- app/instadroid/capture.py. What the device answers for one share sheet is a record; its taps, dumps
-- and pauses are not modelled.
use instadroid.Prelude.{
  ℕ, Bool, true, false, not, ◌&&◌, ◌||◌, Option, none, some, List, [], ◌∷◌, if◌then◌else◌, Text,
  text_eq, find?, any, take, is_some,
}
use instadroid.Common.{bounds_center}
use instadroid.Capture.Permalink.{match_permalink, code_of, permalink_url}
use instadroid.Feed.Cards.{Post, is_empty}

-- one reading of the clipboard: a text, None, or an exception
pub data Read : Type 0 where
  holds : Text → Read
  null : Read
  failed : Read

-- `d.clipboard or ""`, an exception as ""
unfoldable pub heard : Read → Text
heard (holds t) = t
heard null = []
heard failed = []

-- `not (d.clipboard or "")`, an exception as False
unfoldable pub reads_empty : Read → Bool
reads_empty (holds t) = is_empty t
reads_empty null = true
reads_empty failed = false

pub data Fail : Type 0 where
  sheet : Fail
  clipboard : Fail
  repeat : Fail

-- the module's _last_code, _clearing, _certain and _left_on_feed
pub record Clip : Type 0 where
  pub last_code : Text
  pub clearing : Bool
  pub certain : Bool
  pub left_on_feed : Option Bool

-- What the device answers in one call: whether close_sheets() closed them, the cards of the new dump,
-- link.exists() after each tap on Share, whether Copy link still had bounds, whether the clipboard
-- could be set to "" and what it read then, what it read after the first and the second tap until
-- CLIPBOARD_TIMEOUT, and what back_to_feed() saw.
pub record Sheet : Type 0 where
  pub closed : Bool
  pub cards : List Post
  pub opened : List Bool
  pub located : Bool
  pub was_set : Bool
  pub emptied : Read
  pub first : List Read
  pub second : List Read
  pub on_feed : Bool

-- what _poll_clipboard() gives: the link copied, a reading that still carried the last one, _last_code
pub record Polled : Type 0 where
  pub url : Text
  pub again : Text
  pub code : Text

-- what fetch_permalink() leaves and returns
pub record Fetched : Type 0 where
  pub clip : Clip
  pub url : Option Text
  pub reason : Option Fail

-- _clear_clipboard()
unfoldable pub clear_clipboard : Clip → Sheet → Bool
clear_clipboard c s = c.clearing && (s.was_set && reads_empty s.emptied)

-- _leave_sheet()
unfoldable pub leave_sheet : Sheet → Clip → Clip
leave_sheet s c = record c { left_on_feed = some s.on_feed }

-- then Copy link is tapped again
unfoldable pub is_bare : Polled → Bool
is_bare p = is_empty p.url && is_empty p.again

module _ (wide_word : ℕ → Bool) where
  -- reset_last_url()
  unfoldable pub reset_last_url : Read → Clip → Clip
  reset_last_url r c = record c { last_code = code_of wide_word (heard r); clearing = true }

  -- _poll_clipboard() from a `repeat` on
  unfoldable pub poll_clipboard : Bool → List Read → Text → Text → Polled
  poll_clipboard cleared [] last again = record { url = []; again = again; code = last }
  poll_clipboard cleared (r ∷ reads) last again =
      let code = code_of wide_word (heard r) in
      let rest = poll_clipboard cleared reads last (if is_empty code then again else heard r) in
      if not (is_empty code) && (cleared || not (text_eq code last))
      then record { url = heard r; again = again; code = code }
      else rest

  -- the taps on Copy link: what came of them, and _clearing
  unfoldable pub tap_copy : Bool → Sheet → Clip → Polled × Bool
  tap_copy cleared s c =
      let once = poll_clipboard cleared s.first c.last_code [] in
      let twice = poll_clipboard cleared s.second once.code [] in
      if is_bare once
      then (twice, c.clearing && not (cleared && is_empty twice.url))
      else (once, c.clearing)

  -- what the clipboard held, and how it is handed out
  unfoldable pub hand_out : Clip → Polled → Fetched
  hand_out c p = elim (match_permalink wide_word (if is_empty p.url then p.again else p.url)) [
    | none ↦ record { clip = c; url = none; reason = some clipboard }
    | some m ↦ record {
      clip = c;
      url = some (permalink_url m);
      reason = if is_empty p.url then some repeat else none;
    }
  ]

  -- from the open share sheet on
  unfoldable pub copy_link : Sheet → Clip → Fetched
  copy_link s c =
      let cleared = clear_clipboard c s in
      let tapped = tap_copy cleared s c in
      let after = record (leave_sheet s c) {
        last_code = tapped.0.code;
        clearing = tapped.1;
        certain = cleared && not (is_empty tapped.0.url);
      } in
      hand_out after tapped.0

  module _ (post_id : Post → Text) (share_tap_tries : ℕ) where
    -- _card_on_screen(), and the centre of its Share button
    unfoldable pub share_point : Text → Sheet → Option (ℕ × ℕ)
    share_point post_hash s = elim (find? (λ p. text_eq (post_id p) post_hash) s.cards) [
      | none ↦ none
      | some p ↦ bounds_center p.share_bounds
    ]

    unfoldable pub fetch_permalink : Text → Sheet → Clip → Fetched
    fetch_permalink post_hash s c =
        let c' = record c { certain = false; left_on_feed = none } in
        let unopened : Fetched = record { clip = c'; url = none; reason = some sheet } in
        let left : Fetched = record { clip = leave_sheet s c'; url = none; reason = some sheet } in
        if not s.closed || not (is_some (share_point post_hash s))
        then unopened
        else if any (λ b. b) (take share_tap_tries s.opened) && s.located
        then copy_link s c'
        else left
