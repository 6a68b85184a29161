-- ===== src/Alerts/Rows.antt =====
-- Severities, findings and the rows of the alerts table (backend/internal/db/alerts.go).
use pmacct_suricata_analyzer.Prelude.{
  ℕ, Bool, true, false, ◌&&◌, ◌||◌, List, [], ◌∷◌, ◌++◌, String, Option, if◌then◌else◌, ltb, str_eq,
  join, decimal,
}
use pmacct_suricata_analyzer.Values.{Params}

-- `SeverityRank`: 0 for a text that is no severity.
unfoldable pub severity_rank : String → ℕ
severity_rank s =
    if str_eq s "critical"
    then 3
    else if str_eq s "warning"
    then 2
    else if str_eq s "info"
    then 1
    else 0

-- What a rule produces. A port of 0 stands for no port.
pub record Finding : Type 0 where
  pub rule : String
  pub severity : String
  pub host : String
  pub peer : String
  pub port : ℕ
  pub title : String
  pub details : Params
  pub key : String

unfoldable pub dedupe_key : Finding → String
dedupe_key f = join "|" (
    (f.rule ∷ f.host ∷ f.peer ∷ [])
    ++ ((if ltb 0 f.port then decimal f.port ∷ [] else [])
        ++ (if str_eq f.key "" then [] else f.key ∷ [])))

pub data AlertState : Type 0 where
  opened acked resolved : AlertState

pub record Alert : Type 0 where
  pub id : ℕ
  pub rule : String
  pub severity : String
  pub host : Option String
  pub peer : Option String
  pub port : Option ℕ
  pub title : String
  pub details : Params
  pub count : ℕ
  pub first_seen : ℕ
  pub last_seen : ℕ
  pub state : AlertState
  pub acked_at : Option ℕ
  pub resolved_at : Option ℕ
  pub notified_at : Option ℕ
  pub reopened_at : Option ℕ
  pub dedupe_key : String

-- The rows, in the order of insertion, and the next value of the id sequence.
pub record Table : Type 0 where
  pub rows : List Alert
  pub next_id : ℕ

abbrev is_open : AlertState → Bool
is_open resolved = false
is_open _ = true

-- `state <> 'resolved'`.
abbrev pub is_live : Alert → Bool
is_live a = is_open a.state

-- The severity that a conflicting insert leaves: `new` is the finding's, `old` the row's.
unfoldable pub escalate : String → String → String
escalate new old =
    if str_eq new "critical" || (str_eq new "warning" && str_eq old "info") then new else old
