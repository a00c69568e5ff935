-- ===== src/Capture/Links.antt =====
-- What fetch_permalink() of app/instadroid/capture.py promises of the link it hands out.
use instadroid.Prelude.{
  ℕ, ◌≡◌, ◌≢◌, ◌⊎◌, inl, inr, refl, sym, ◌∙◌, Bool, true, false, not, ◌&&◌, ◌||◌, none, some, [],
  ◌∷◌, arith, if◌then◌else◌, Text, Bool-cases, Option-cases, any, take, is_some,
}
use instadroid.Feed.Cards.{Post, is_empty}
use instadroid.Capture.Permalink.{
  match_permalink, code_of, permalink_code, permalink_url, drop_prefix,
}
use instadroid.Capture.Copying.{
  sheet, clipboard, repeat, Clip, Sheet, Polled, Fetched, clear_clipboard, leave_sheet, tap_copy,
  hand_out, copy_link, share_point, fetch_permalink,
}
use instadroid.Capture.Polling.{
  Gives, copied, lagged, tap_copy-Gives, permalink_code-permalink_url, code_of-nil,
}

-- What one call of fetch_permalink() does with the link that `c` knows as the last: it hands out a
-- link that is new to it or that came off an emptied clipboard, or the last one again, said to be so
-- and not certain, or none, and then it still knows the last.
pub data Outcome (wide_word : ℕ → Bool) (c : Clip) (f : Fetched) : Type 0 where
  fresh :
      (u : Text)
      → f.url ≡ some u
      → f.reason ≡ none
      → permalink_code wide_word u ≡ f.clip.last_code
      → (f.clip.certain ≡ true) ⊎ (f.clip.last_code ≢ c.last_code)
      → Outcome wide_word c f
  repeated :
      (u : Text)
      → f.url ≡ some u
      → f.reason ≡ some repeat
      → permalink_code wide_word u ≡ c.last_code
      → f.clip.last_code ≡ c.last_code
      → f.clip.certain ≡ false
      → Outcome wide_word c f
  nothing :
      f.url ≡ none
      → (f.reason ≡ some sheet) ⊎ (f.reason ≡ some clipboard)
      → f.clip.last_code ≡ c.last_code
      → f.clip.certain ≡ false
      → Outcome wide_word c f

module _ (wide_word : ℕ → Bool) where
  match_permalink-nil : (s : Text) → s ≡ [] → match_permalink wide_word s ≡ none
  unfolding match_permalink drop_prefix
  match_permalink-nil s e = rw e refl

  is_empty-nil : (s : Text) → s ≡ [] → is_empty s ≡ true
  unfolding is_empty
  is_empty-nil s e = rw e refl

  code_of-none : (s : Text) → match_permalink wide_word s ≡ none → code_of wide_word s ≡ []
  unfolding code_of
  code_of-none s e = rw (e, code_of) refl

  solid-copied : (u k : Text) → code_of wide_word u ≡ k → is_empty k ≡ false → is_empty u ≡ false
  unfolding is_empty
  solid-copied [] k e h = ground (arith, code_of-nil wide_word)
  solid-copied (c ∷ u) k e h = refl

  hand_out-none :
      (c : Clip) (p : Polled)
      → match_permalink wide_word (if is_empty p.url then p.again else p.url) ≡ none
      → hand_out wide_word c p ≡ record { clip = c; url = none; reason = some clipboard }
  unfolding hand_out
  hand_out-none c p h = rw (h, hand_out) refl

  hand_out-some :
      (c : Clip) (p : Polled) (m : Text × Text)
      → match_permalink wide_word (if is_empty p.url then p.again else p.url) ≡ some m
      → hand_out wide_word c p ≡ record {
        clip = c;
        url = some (permalink_url m);
        reason = if is_empty p.url then some repeat else none;
      }
  unfolding hand_out
  hand_out-some c p m h = rw (h, hand_out) refl

  -- the part of copy_link() after the taps
  hand_out-Outcome :
      (cleared : Bool) (c c' : Clip) (p : Polled)
      → Gives wide_word cleared c.last_code [] p
      → c'.last_code ≡ p.code
      → c'.certain ≡ (cleared && not (is_empty p.url))
      → Outcome wide_word c (hand_out wide_word c' p)
  hand_out-Outcome cleared c c' p (copied a b d) code sure =
      let full : is_empty p.url ≡ false = solid-copied p.url p.code a b in
      elim (Option-cases (match_permalink wide_word p.url)) [
        | inl e ↦ absurd (solid-nil (code_of-none p.url e))
        | inr (m, e) ↦
            rw (hand_out-some c' p m (rw full e), full)
              (fresh (permalink_url m) refl refl
                (permalink_code-permalink_url wide_word p.url m e ∙ (a ∙ sym code)) (differs d))
      ]
    where
      solid-nil : code_of wide_word p.url ≡ [] → ⊥
      solid-nil e = ground (arith, is_empty-nil p.code (sym a ∙ e))

      differs :
          (cleared ≡ true) ⊎ (p.code ≢ c.last_code)
          → (c'.certain ≡ true) ⊎ (c'.last_code ≢ c.last_code)
      differs (inl k) = inl (rw sure (rw (k, solid-copied p.url p.code a b) refl))
      differs (inr k) = inr (rw code k)
  hand_out-Outcome cleared c c' p (lagged a b d) code sure =
      let bare : is_empty p.url ≡ true = is_empty-nil p.url a in
      let unsure : c'.certain ≡ false = ground arith in
      elim d [
        | inl none_again ↦
            rw (hand_out-none c' p (rw bare (match_permalink-nil p.again none_again)))
              (nothing refl (inr refl) (code ∙ b) unsure)
        | inr (k, off) ↦ elim (Option-cases (match_permalink wide_word p.again)) [
          | inl e ↦ rw (hand_out-none c' p (rw bare e)) (nothing refl (inr refl) (code ∙ b) unsure)
          | inr (m, e) ↦
              rw (hand_out-some c' p m (rw bare e), bare)
                (repeated (permalink_url m) refl refl
                  (permalink_code-permalink_url wide_word p.again m e ∙ k) (code ∙ b) unsure)
        ]
      ]

module _ (wide_word : ℕ → Bool) (c c' : Clip) (same : c'.last_code ≡ c.last_code) where
  -- only the last code of `c` counts
  Outcome-same : {f : Fetched} → Outcome wide_word c' f → Outcome wide_word c f
  Outcome-same (fresh u a b d (inl e)) = fresh u a b d (inl e)
  Outcome-same (fresh u a b d (inr e)) = fresh u a b d (inr (rw (← same) e))
  Outcome-same (repeated u a b d e f) = repeated u a b (d ∙ same) (e ∙ same) f
  Outcome-same (nothing a b d e) = nothing a b (d ∙ same) e

module _ (wide_word : ℕ → Bool) (post_id : Post → Text) (share_tap_tries : ℕ) where
  copy_link-Outcome : (s : Sheet) (c : Clip) → Outcome wide_word c (copy_link wide_word s c)
  unfolding copy_link leave_sheet
  copy_link-Outcome s c =
      let cleared = clear_clipboard c s in
      hand_out-Outcome wide_word cleared c _ (tap_copy wide_word cleared s c).0
        (tap_copy-Gives wide_word cleared s c) refl refl

  -- Each call either hands out a link that differs from the last one it handed out or came off an
  -- emptied clipboard, or hands out the last one again, says so and is not certain of it, or hands out
  -- none, with the reason "sheet" or "clipboard", and keeps the last one in mind. A link that is handed
  -- out has the code of the link that is kept in mind then.
  pub fetch_permalink-Outcome :
      (post_hash : Text) (s : Sheet) (c : Clip)
      → Outcome wide_word c (fetch_permalink wide_word post_id share_tap_tries post_hash s c)
  unfolding fetch_permalink leave_sheet
  fetch_permalink-Outcome post_hash s c =
      elim (Bool-cases (
        not s.closed
        || not (is_some (share_point wide_word post_id share_tap_tries post_hash s)))) [
          | inl e ↦ rw e (nothing refl (inl refl) refl refl)
          | inr e ↦ elim (Bool-cases (any (λ b. b) (take share_tap_tries s.opened) && s.located)) [
            | inl o ↦
                rw (e, o)
                  (Outcome-same wide_word c _ refl
                    (copy_link-Outcome s (record c { certain = false; left_on_feed = none })))
            | inr o ↦ rw (e, o) (nothing refl (inl refl) refl refl)
          ]
        ]
