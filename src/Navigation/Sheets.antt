-- ===== src/Navigation/Sheets.antt =====
-- close_sheets(), back_to_feed() and device.ensure_foreground() as app/instadroid/navigation.py uses them.
use instadroid.Prelude.{
  ℕ, zero, suc, Bool, true, false, not, ◌&&◌, Option, none, some, is_some, [], if◌then◌else◌,
}
use instadroid.Navigation.Driving.{
  in_front, sheet_open, on_feed, launch_app, press_back, Device, M, ◌>>=◌, ◌>>◌, pure, act, ask,
}

module _ (dev : Device) where
  -- whether it had to launch
  unfoldable pub ensure_foreground : M Bool
  ensure_foreground = do
    front ← ask dev in_front
    if is_some front then pure false else (act launch_app >> pure true)

  unfoldable pub press_back_again : M (Option Bool) → M (Option Bool)
  press_back_again next = do act press_back; next

  -- A round of close_sheets() where a sheet is open and Instagram in front, in the very first round and
  -- later: feed rows say that the marker is a false positive, and another Back would exit.
  unfoldable pub close_or_stop : Bool → M (Option Bool) → M (Option Bool)
  close_or_stop true next = press_back_again next
  close_or_stop false next = do
    feed ← ask dev on_feed
    if is_some feed then pure (some true) else press_back_again next

  -- The rounds of close_sheets() that are left; what the last look at the sheet said, while nothing has
  -- changed the screen since.
  unfoldable pub close_rounds : ℕ → Bool → Option Bool → M (Option Bool)
  close_rounds zero first sheet = pure sheet
  close_rounds (suc n) first sheet = do
    open_sheet ← ask dev sheet_open
    if not (is_some open_sheet) then pure (some false) else (do
      front ← ask dev in_front
      if not (is_some front)
          then pure (some true)
          else close_or_stop first (close_rounds n false none))

  unfoldable pub is_closed : Option Bool → M Bool
  is_closed (some sheet) = pure (not sheet)
  is_closed none = do open_sheet ← ask dev sheet_open; pure (not (is_some open_sheet))

  unfoldable pub close_sheets : ℕ → M Bool
  close_sheets max_back = do
    sheet ← close_rounds max_back true none
    launched ← ensure_foreground
    is_closed (if launched then none else sheet)

  unfoldable pub feed_showing : M Bool
  feed_showing = do feed ← ask dev on_feed; pure (is_some feed)

  -- a try of back_to_feed() where Instagram is in front
  unfoldable pub feed_or_back : M Bool → M Bool
  feed_or_back next = do
    feed ← ask dev on_feed
    open_sheet ← (if is_some feed then ask dev sheet_open else pure (some []))
    if is_some feed && not (is_some open_sheet) then pure true else (do act press_back; next)

  unfoldable pub back_to_feed : ℕ → M Bool
  back_to_feed zero = feed_showing
  back_to_feed (suc tries) = do
    launched ← ensure_foreground
    if launched then feed_showing else feed_or_back (back_to_feed tries)
