-- ===== src/Db/Runs.antt =====
-- app/instadroid/db.py: the runs table, its rows newest first (every query orders it by id).
use instadroid.Prelude.{ℕ, suc, Option, none, some, List, [], ◌∷◌, take, Text, or_else}

-- DeviceSnapshot of device.py, its keys present together or not at all.
pub record Snapshot : Type 0 where
  pub android_release : Option Text
  pub ig_version : Option Text
  pub redroid_image : Option Text
  pub selector_profile : Option Text

-- RunMetrics: a key that the run did not report is none. A yield is a whole number of some unit.
pub record Metrics : Type 0 where
  pub link_sheet_failures : Option ℕ
  pub link_clipboard_failures : Option ℕ
  pub new_stories : Option ℕ
  pub filtered_posts : Option ℕ
  pub warning : Option Text
  pub cards_per_screen : Option ℕ
  pub share_captioned : Option ℕ
  pub share_complete : Option ℕ
  pub mem_peak_mb : Option ℕ
  pub oom_kills : Option ℕ

abbrev pub no_metrics : Metrics
no_metrics = record {
  link_sheet_failures = none;
  link_clipboard_failures = none;
  new_stories = none;
  filtered_posts = none;
  warning = none;
  cards_per_screen = none;
  share_captioned = none;
  share_complete = none;
  mem_peak_mb = none;
  oom_kills = none;
}

-- A row. A time that parse_iso() cannot read is none.
pub record Run : Type 0 where
  pub started_at : Option ℕ
  pub finished_at : Option ℕ
  pub new_posts : ℕ
  pub error : Option Text
  pub snapshot : Option Snapshot
  pub metrics : Metrics

-- the four counters that a row always has
abbrev with_defaults : Metrics → Metrics
with_defaults m = record m {
  link_sheet_failures = or_else m.link_sheet_failures (some 0);
  link_clipboard_failures = or_else m.link_clipboard_failures (some 0);
  new_stories = or_else m.new_stories (some 0);
  filtered_posts = or_else m.filtered_posts (some 0);
}

unfoldable pub record_run :
    List Run → ℕ → ℕ → ℕ → Option Text → Option Snapshot → Metrics → List Run
record_run runs started_at finished_at new_posts error snapshot stats =
    record {
      started_at = some started_at;
      finished_at = some finished_at;
      new_posts = new_posts;
      error = error;
      snapshot = snapshot;
      metrics = with_defaults stats;
    }
    ∷ runs

-- the loop over the errors, newest first, that stops at the first run without one
unfoldable pub leading_errors : List Run → ℕ
leading_errors [] = 0
leading_errors (r ∷ runs) = elim r.error [ none ↦ 0 | some e ↦ suc (leading_errors runs) ]

unfoldable pub consecutive_failures : List Run → ℕ
consecutive_failures runs = leading_errors (take 64 runs)
