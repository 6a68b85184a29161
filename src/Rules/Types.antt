-- ===== src/Rules/Types.antt =====
-- The data of backend/internal/rules/rules.go and custom.go: rule definitions, overrides, the
-- engine's state, and what the engine calls outside the package.
use pmacct_suricata_analyzer.Prelude.{
  ℕ, Bool, true, false, List, ◌++◌, map, String, Option, none, some, Result, str_eq, get, find,
}
use pmacct_suricata_analyzer.Prelude.Int.{ℤ}
use pmacct_suricata_analyzer.Values.{Value, Params}
use pmacct_suricata_analyzer.Alerts.{DbError}
use pmacct_suricata_analyzer.Alerts.Rows.{Finding, Alert, Table}
use pmacct_suricata_analyzer.Exclusions.{Net, ExclusionSet}

-- `ValidationError`, by the message that it carries.
pub data Invalid : Type 0 where
  bad_severity : String → Invalid
  unknown_parameter : String → String → Invalid
  bad_duration : String → String → Invalid
  out_of_range : String → Invalid
  bad_name : Invalid
  reserved_name : String → Invalid
  bad_sql : String → Invalid
  sql_parameters : Invalid
  bad_base : String → Invalid
  bad_kind : Invalid
  name_taken : String → Invalid
  unbuildable : String → Invalid
  query_failed : String → Invalid

pub data RuleError : Type 0 where
  unknown_rule : String → RuleError
  invalid : Invalid → RuleError
  db_error : DbError → RuleError
  -- A detector's own error, or a rule that cannot be built.
  other : String → RuleError

-- `RuleConfig`: an empty text or `none` in an update keeps the current value.
pub record RuleConfig : Type 0 where
  pub enabled : Option Bool
  pub severity : String
  pub params : Option Params
  pub exempt_hosts : Option (List String)
  pub interval : String
  pub window : String

abbrev pub no_config : RuleConfig
no_config = record {
  enabled = none;
  severity = "";
  params = none;
  exempt_hosts = none;
  interval = "";
  window = "";
}

abbrev pub Config : Type 0
Config = List (String × RuleConfig)

pub record Param : Type 0 where
  pub name : String
  pub default : Value

pub record Window : Type 0 where
  pub since : ℕ
  pub until : ℕ

-- What a detector is: its definition and its query. A duration is in nanoseconds, as in Go.
pub record Detector : Type 0 where
  pub name : String
  pub title : String
  pub description : String
  pub severity : String
  pub interval : ℤ
  pub window : ℤ
  pub params : List Param
  pub run : Params → Window → Result RuleError (List Finding)

-- A row of custom_rules.
pub record CustomRule : Type 0 where
  pub name : String
  pub title : String
  pub description : String
  pub kind : String
  pub base : String
  pub sql : String
  pub params : Params
  pub severity : String
  pub interval : ℤ
  pub window : ℤ
  pub enabled : Bool
  pub exempt_hosts : List String

-- A `Rule`: `custom` is given for a user-defined one, `base` for one built on a detector.
pub record Rule : Type 0 where
  pub definition : Detector
  pub custom : Option CustomRule
  pub base : Option Detector

pub record RuleState : Type 0 where
  pub last_run : ℕ
  pub last_count : ℕ
  pub last_err : Option RuleError
  pub last_ms : ℕ

abbrev pub fresh_state : RuleState
fresh_state = record { last_run = 0; last_count = 0; last_err = none; last_ms = 0 }

-- The engine's mutable part.
pub record Engine : Type 0 where
  pub builtin : List Detector
  pub custom : List Rule
  pub cfg : Config
  pub state : List (String × RuleState)

-- A rule's configuration after overrides.
pub record Effective : Type 0 where
  pub enabled : Bool
  pub severity : String
  pub params : Params
  pub exempt : List String
  pub interval : ℤ
  pub window : ℤ

pub record Nickname : Type 0 where
  pub ip : String
  pub nickname : String

-- What the engine is given and does not change. `parse_duration` is `time.ParseDuration`;
-- `nicknames`, `exclusions`, `names_for`, `active_agents` and `processes` are the queries of the db
-- package; `run_sql` is the query of `RunRuleSQL`; `to_upper` is `strings.ToUpper`; `took` is the
-- measured time of a run; the `…_fails` say which statements on the database fail.
pub record Env : Type 0 where
  pub net : Net
  pub inet : String → Option String
  pub parse_duration : String → Option ℤ
  pub nicknames : Result DbError (List Nickname)
  pub exclusions : Result DbError ExclusionSet
  pub names_for : List String → Result DbError (List (String × List String))
  pub active_agents : Result DbError ℕ
  pub processes : String → String → ℕ → Window → Result DbError (List String)
  pub run_sql : String → Window → Result RuleError (List Finding)
  pub to_upper : String → String
  pub has_db : Bool
  pub has_notifier : Bool
  pub renotify_after : ℤ
  pub auto_resolve_after : ℤ
  pub auto_resolve_fails : Bool
  pub took : ℕ
  pub alert_write_fails : Finding → Bool
  pub setting_write_fails : Bool
  pub custom_write_fails : Bool

-- The database as the engine writes it, and the batches handed to the notifier, oldest first.
pub record World : Type 0 where
  pub alerts : Table
  pub rules_setting : Config
  pub custom_rows : List (String × CustomRule)
  pub notified : List (List Alert)

abbrev pub to_rule : Detector → Rule
to_rule d = record { definition = d; custom = none; base = none }

abbrev pub is_named : String → Rule → Bool
is_named name r = str_eq r.definition.name name

abbrev pub detector_named : String → Detector → Bool
detector_named name d = str_eq d.name name

-- `Rules`: built-ins first, then custom rules.
unfoldable pub rules : Engine → List Rule
rules e = map to_rule e.builtin ++ e.custom

-- `rule`: the first of that name.
unfoldable pub rule : Engine → String → Option Rule
unfolding rules
rule e name = find (is_named name) (rules e)

unfoldable pub builtin_rule : Engine → String → Option Detector
builtin_rule e name = find (detector_named name) e.builtin

abbrev pub is_custom : Rule → Bool
is_custom r = elim r.custom [ none ↦ false | some _ ↦ true ]

-- A missing key of `e.cfg` and of `e.state` reads as the zero value.
abbrev pub config_of : String → Config → RuleConfig
config_of name cfg = elim (get name cfg) [ none ↦ no_config | some c ↦ c ]

abbrev pub state_of : String → List (String × RuleState) → RuleState
state_of name st = elim (get name st) [ none ↦ fresh_state | some s ↦ s ]

-- The engine with the database that it works on.
pub record Sys : Type 0 where
  pub engine : Engine
  pub world : World
