-- ===== src/Rules/Spec.antt =====
-- The specification of a user-defined rule (backend/internal/rules/custom.go): its validation, and
-- the row that it is stored as (backend/internal/db/custom_rules.go).
use pmacct_suricata_analyzer.Prelude.{
  ℕ, Bool, true, false, not, ◌&&◌, ◌||◌, List, [], ◌∷◌, String, Option, none, some, Result, ok, err,
  ◌>>=◌, ◌>>◌, ensure, if◌then◌else◌, ltb, leb, ◌==◌, str_eq, trim_space, codes, has_prefix, any,
  length,
}
use pmacct_suricata_analyzer.Prelude.Int.{ℤ, pos, eqb_ℤ}
use pmacct_suricata_analyzer.Values.{Params}
use pmacct_suricata_analyzer.Alerts.Rows.{severity_rank}
use pmacct_suricata_analyzer.Exclusions.{is_nil}
use pmacct_suricata_analyzer.Rules.Types.{
  bad_severity, unknown_parameter, bad_name, reserved_name, bad_sql, sql_parameters, bad_base,
  bad_kind, RuleError, invalid, Detector, CustomRule, Engine, Env, builtin_rule,
}
use pmacct_suricata_analyzer.Rules.Config.{
  min_interval, max_interval, min_window, max_window, parse_timing, check_params, given_params,
}

pub record CustomSpec : Type 0 where
  pub name : String
  pub title : String
  pub description : String
  pub kind : String
  pub base : String
  pub sql : String
  pub params : Option Params
  pub severity : String
  pub interval : String
  pub window : String
  pub enabled : Option Bool
  pub exempt_hosts : List String

abbrev is_lower : ℕ → Bool
is_lower c = leb b'a' c && leb c b'z'

abbrev in_custom_name : ℕ → Bool
in_custom_name c = is_lower c || (leb b'0' c && leb c b'9') || c == b'_'

abbrev all_in_custom_name : List ℕ → Bool
all_in_custom_name [] = true
all_in_custom_name (c ∷ cs) = in_custom_name c && all_in_custom_name cs

-- `customNameRe`: ^[a-z][a-z0-9_]{1,39}$
abbrev pub is_custom_name : List ℕ → Bool
is_custom_name [] = false
is_custom_name (c ∷ cs) =
    is_lower c && all_in_custom_name cs && leb 1 (length cs) && leb (length cs) 39

abbrev pub is_reserved : String → Bool
is_reserved s = str_eq s "custom" || str_eq s "preview" || str_eq s "run"

-- `ValidateRuleSQL`: the error's message, if there is one.
unfoldable pub validate_rule_sql : (String → String) → String → Option String
validate_rule_sql to_upper q =
    let t = trim_space q in
    if str_eq t ""
    then some "sql is empty"
    else if not (has_prefix (to_upper t) "SELECT" || has_prefix (to_upper t) "WITH")
    then some "sql must be a single SELECT (or WITH … SELECT) statement"
    else if any (λ c. c == b';') (codes t)
    then some "sql must not contain ';' (one statement only)"
    else none

abbrev pub sql_result : Option String → Result RuleError (Unit {0})
sql_result none = ok tt
sql_result (some m) = err (invalid (bad_sql m))

-- The hosts that are not blank, trimmed.
unfoldable pub trimmed_hosts : List String → List String
trimmed_hosts [] = []
trimmed_hosts (h ∷ hs) =
    let rest = trimmed_hosts hs in if str_eq (trim_space h) "" then rest else trim_space h ∷ rest

abbrev pub or_text : String → String → String
or_text s default = if str_eq s "" then default else s

abbrev or_duration : ℤ → ℤ → ℤ
or_duration d default = if eqb_ℤ d (pos 0) then default else d

abbrev or_true : Option Bool → Bool
or_true none = true
or_true (some b) = b

-- What the kind decides: the base, the query, and the default interval and window.
pub record KindPart : Type 0 where
  pub base : String
  pub sql : String
  pub default_interval : ℤ
  pub default_window : ℤ

abbrev pub sql_kind : Env → CustomSpec → Params → Result RuleError KindPart
sql_kind env spec params = do
  sql_result (validate_rule_sql env.to_upper (trim_space spec.sql))
  ensure (is_nil params) (invalid sql_parameters)
  ok (record {
    base = "";
    sql = trim_space spec.sql;
    default_interval = pos 60_000_000_000;
    default_window = pos 600_000_000_000;
  })

abbrev pub base_of : String → Option Detector → Result RuleError Detector
base_of name none = err (invalid (bad_base name))
base_of name (some d) = if str_eq name "ids" then err (invalid (bad_base name)) else ok d

abbrev pub builtin_kind : Engine → CustomSpec → Params → Result RuleError KindPart
builtin_kind e spec params = do
  let name = trim_space spec.base
  d ← base_of name (builtin_rule e name)
  check_params (λ k. unknown_parameter k name) d.params params
  ok (record { base = name; sql = ""; default_interval = d.interval; default_window = d.window })

abbrev pub kind_part : Env → Engine → CustomSpec → Params → Result RuleError KindPart
kind_part env e spec params =
    if str_eq (trim_space spec.kind) "sql"
    then sql_kind env spec params
    else if str_eq (trim_space spec.kind) "builtin"
    then builtin_kind e spec params
    else err (invalid bad_kind)

-- `row.Severity` as it is stored.
abbrev pub spec_severity : Env → CustomSpec → String
spec_severity env spec = or_text (env.net.to_lower (trim_space spec.severity)) "warning"

-- `toRow`.
unfoldable pub to_row : Env → Engine → CustomSpec → Result RuleError CustomRule
to_row env e spec = do
  let name = trim_space spec.name
  ensure (is_custom_name (codes name)) (invalid bad_name)
  ensure (not (is_reserved name)) (invalid (reserved_name name))
  ensure (ltb 0 (severity_rank (spec_severity env spec))) (invalid (bad_severity spec.severity))
  k ← kind_part env e spec (given_params spec.params)
  iv ← parse_timing env.parse_duration "interval" spec.interval min_interval max_interval
  win ← parse_timing env.parse_duration "window" spec.window min_window max_window
  ok (record {
    name = name;
    title = or_text (trim_space spec.title) name;
    description = trim_space spec.description;
    kind = trim_space spec.kind;
    base = k.base;
    sql = k.sql;
    params = given_params spec.params;
    severity = spec_severity env spec;
    interval = or_duration iv k.default_interval;
    window = or_duration win k.default_window;
    enabled = or_true spec.enabled;
    exempt_hosts = trimmed_hosts spec.exempt_hosts;
  })
