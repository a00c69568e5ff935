-- ===== src/Alerts/Table.antt =====
-- update() of app/instadroid/alerts.py: the alerts table brought in line with the conditions, and what
-- is announced. A dict of conditions is the list of its items.
use instadroid.Prelude.{
  ℕ, Bool, Option, none, some, is_some, List, [], ◌∷◌, ◌++◌, if◌then◌else◌, Text, text_eq, keep,
}

pub record Alert : Type 0 where
  pub kind : Text
  pub message : Text
  pub raised_at : ℕ

-- the message under a kind, in the conditions and in the table
unfoldable pub lookup : Text → List (Text × Text) → Option Text
lookup k [] = none
lookup k ((j, m) ∷ items) = if text_eq j k then some m else lookup k items

unfoldable pub message_of : Text → List Alert → Option Text
message_of k [] = none
message_of k (a ∷ alerts) = if text_eq a.kind k then some a.message else message_of k alerts

-- UPDATE alerts SET message = ? WHERE kind = ?
unfoldable pub set_message : Text → Text → List Alert → List Alert
set_message k m [] = []
set_message k m (a ∷ alerts) =
    (if text_eq a.kind k then record a { message = m } else a) ∷ set_message k m alerts

-- one turn of the first loop, for the message that the table had under the kind
unfoldable pub raise : Option Text → Text → Text → ℕ → List Alert → List Alert
raise none k m now alerts = alerts ++ record { kind = k; message = m; raised_at = now } ∷ []
raise (some old) k m now alerts = if text_eq old m then alerts else set_message k m alerts

unfoldable pub raise_all : List Alert → List (Text × Text) → ℕ → List Alert → List Alert
raise_all open_alerts [] now alerts = alerts
raise_all open_alerts ((k, m) ∷ current) now alerts =
    raise_all open_alerts current now (raise (message_of k open_alerts) k m now alerts)

-- an alert whose condition holds
unfoldable pub holds : List (Text × Text) → Alert → Bool
holds current a = is_some (lookup a.kind current)

-- an announcement: of a new alert, or of the end of one
pub data Notice : Type 0 where
  raised : Text → Text → Notice
  resolved : Text → Notice

unfoldable pub raised_of : List Alert → List (Text × Text) → List Notice
raised_of open_alerts [] = []
raised_of open_alerts ((k, m) ∷ current) =
    let rest = raised_of open_alerts current in
    if is_some (message_of k open_alerts) then rest else raised k m ∷ rest

unfoldable pub resolved_of : List (Text × Text) → List Alert → List Notice
resolved_of current [] = []
resolved_of current (a ∷ alerts) =
    let rest = resolved_of current alerts in
    if holds current a then rest else resolved a.kind ∷ rest

-- update(): the table, and what is announced
unfoldable pub update : List (Text × Text) → ℕ → List Alert → List Alert × List Notice
update current now alerts = (
  keep (holds current) (raise_all alerts current now alerts),
  raised_of alerts current ++ resolved_of current alerts,
)
