-- ===== src/Alerts/Tests.antt =====
-- One alert that is raised and stays.
use instadroid.Prelude.{ℕ, ◌≡◌, Option, none, some, List, [], ◌∷◌, Text, codes}
use instadroid.Alerts.Table.{Alert, lookup, message_of, update}
use instadroid.Db.Runs.{Run, no_metrics}
use instadroid.Db.Renames.{Tables}
use instadroid.Alerts.Conditions.{Alerting, conditions}
use instadroid.Alerts.Kinds.{update-conditions}

abbrev present : List (Text × Text)
present = (codes "failing", codes "3 runs") ∷ (codes "rename", codes "ann") ∷ []

abbrev two_failures : Alerting
two_failures = record {
  failed_runs = 2;
  no_posts_seconds = 86400;
  say_restricted = λ e. e;
  say_login = λ e. e;
  say_failing = λ e. e;
  say_no_posts = codes "no posts";
  say_following = λ p. codes "shrunk";
  say_renames = λ rs. codes "renamed";
}

abbrev failed_run : Run
failed_run = record {
  started_at = some 10;
  finished_at = some 20;
  new_posts = 0;
  error = some (codes "login page shown");
  snapshot = none;
  metrics = no_metrics;
}

abbrev no_tables : Tables
no_tables = record { posts = []; accounts = []; following = []; candidates = []; dismissals = [] }

abbrev open_alert : List Alert
open_alert = record { kind = codes "login"; message = codes "finish it"; raised_at = 5 } ∷ []

update-conditions_example :
    let a : Alerting = two_failures in
    let runs : List Run = failed_run ∷ failed_run ∷ [] in
    let t : Tables = no_tables in
    let held : Option (ℕ × ℕ) = some (1, 3) in
    let newer : Option Text = none in
    let now : ℕ = 90 in
    let alerts : List Alert = open_alert in
    let k : Text = codes "login" in
    message_of k (update (conditions a runs t held newer now) now alerts).0
    ≡ lookup k (conditions a runs t held newer now)
update-conditions_example =
    update-conditions two_failures (failed_run ∷ failed_run ∷ []) no_tables (some (1, 3)) none 90
      open_alert (codes "login")
