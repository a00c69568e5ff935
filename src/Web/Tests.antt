-- ===== src/Web/Tests.antt =====
-- A request with a token.
use instadroid.Prelude.{
  ℕ, ◌+◌, ◌-◌, ◌≡◌, refl, false, none, some, List, [], ◌∷◌, arith, Text, codes, text_eq,
  starts_with, any,
}
use instadroid.Feed.Cards.{is_empty}
use instadroid.Web.Auth.{
  Request, Crypto, passed_on, crashed, is_ascii, compare_digest, partition, presented_by, is_signed,
  presents, authorized, cross_site, reply_of, require_token,
}
use instadroid.Web.Guarded.{IsJudged, require_token-IsJudged}
use instadroid.Prelude.Strip.{strip}
use mathlib.Core.List.{reverse}
use instadroid.Db.Runs.{Run, no_metrics}
use instadroid.Schedule.Sample.{uniform}
use instadroid.Schedule.Delays.{Settings, day, started, budget_wait_seconds}
use instadroid.Web.Status.{readable, starts_since, budget_line}
use instadroid.Web.Agreed.{wait_of, budget_line-agrees}

abbrev twice_a_day : Settings
twice_a_day = record {
  distribution = uniform;
  scrape_on_startup = false;
  poll_min = 3600;
  poll_max = 7200;
  retry_delays = [];
  backoff_max = 0;
  max_runs_per_day = 2;
}

abbrev run_at : ℕ → Run
run_at t = record {
  started_at = some t;
  finished_at = some (t + 60);
  new_posts = 0;
  error = none;
  snapshot = none;
  metrics = no_metrics;
}

abbrev some_crypto : Crypto
some_crypto = record { media_sig = λ f. codes "5f"; password = λ t. none; lower = λ t. t }

abbrev media_request : Text → Request
media_request sig = record {
  path = codes "/media/a.jpg";
  method = codes "GET";
  token = codes "secret";
  sig = sig;
  authorization = [];
  origin = none;
  base = codes "http://localhost";
}

token_passes :
    require_token some_crypto (codes "secret") (codes "http://host") (media_request (codes "x"))
    ≡ passed_on
unfolding require_token cross_site authorized is_signed compare_digest is_ascii presents
    presented_by starts_with any text_eq is_empty partition strip reply_of
token_passes = refl

wide_sig_crashes :
    require_token some_crypto (codes "secret") (codes "http://host") (media_request (233 ∷ []))
    ≡ crashed
unfolding require_token cross_site authorized is_signed compare_digest is_ascii presents
    presented_by starts_with any text_eq is_empty partition strip reply_of
wide_sig_crashes = refl

require_token-IsJudged_example :
    let c : Crypto = some_crypto in
    let token : Text = codes "secret" in
    let public_url : Text = codes "http://host" in
    let r : Request = media_request (codes "x") in
    IsJudged c token public_url r (require_token c token public_url r)
unfolding is_ascii is_empty
require_token-IsJudged_example =
    require_token-IsJudged some_crypto (λ file. refl) (codes "secret") (codes "http://host")
      (media_request (codes "x")) refl

budget_line-agrees_example :
    let s : Settings = twice_a_day in
    let runs : List Run = run_at 100000 ∷ run_at 90000 ∷ [] in
    let now : ℕ = 110000 in
    wait_of
      (budget_line s.max_runs_per_day (starts_since (now - day) (reverse (started runs))) now)
      now
    ≡ budget_wait_seconds s runs now
unfolding readable reverse
budget_line-agrees_example =
    budget_line-agrees twice_a_day (run_at 100000 ∷ run_at 90000 ∷ []) 110000
      ((ground arith, tt), (tt, tt))
