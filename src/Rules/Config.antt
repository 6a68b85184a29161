-- ===== src/Rules/Config.antt =====
-- Overrides of rules in backend/internal/rules/rules.go: timing, validation, updates, and the
-- configuration that results.
use pmacct_suricata_analyzer.Prelude.{
  ℕ, Bool, true, ◌||◌, List, [], ◌∷◌, String, Option, none, some, Result, ok, err, ◌>>=◌, ◌>>◌,
  ensure, if◌then◌else◌, ltb, str_eq, trim_space, get, put, any, is_some,
}
use pmacct_suricata_analyzer.Prelude.Int.{ℤ, pos, ltb_ℤ, eqb_ℤ}
use pmacct_suricata_analyzer.Values.{Params}
use pmacct_suricata_analyzer.Alerts.Rows.{severity_rank}
use pmacct_suricata_analyzer.Rules.Types.{
  Invalid, bad_severity, unknown_parameter, bad_duration, out_of_range, RuleError, invalid,
  RuleConfig, Param, Detector, CustomRule, Rule, Engine, Effective, config_of,
}

-- Nanoseconds in a second.
abbrev pub second : ℕ
second = 1_000_000_000

abbrev pub min_interval : ℤ
min_interval = pos 30_000_000_000

abbrev pub max_interval : ℤ
max_interval = pos 604_800_000_000_000

abbrev pub min_window : ℤ
min_window = pos 60_000_000_000

abbrev pub max_window : ℤ
max_window = pos 2_592_000_000_000_000

-- The value of `ParseDuration` where its error is dropped: 0 for a text that does not parse.
abbrev pub parse_or_zero : Option ℤ → ℤ
parse_or_zero none = pos 0
parse_or_zero (some d) = d

-- `parseTiming`; "" means "keep the default".
unfoldable pub parse_timing : (String → Option ℤ) → String → String → ℤ → ℤ → Result RuleError ℤ
parse_timing parse what s min max =
    if str_eq (trim_space s) "" then ok (pos 0) else elim (parse (trim_space s)) [
      | none ↦ err (invalid (bad_duration what s))
      | some d ↦ if ltb_ℤ d min || ltb_ℤ max d then err (invalid (out_of_range what)) else ok d
    ]

abbrev pub is_param : String → List Param → Bool
is_param k ps = any (λ (d : Param). str_eq d.name k) ps

-- The loop over the given parameters: the first that the rule does not define is an error.
unfoldable pub check_params : (String → Invalid) → List Param → Params → Result RuleError (Unit {0})
check_params bad ps [] = ok tt
check_params bad ps ((k, v) ∷ given) =
    if is_param k ps then check_params bad ps given else err (invalid (bad k))

abbrev pub given_params : Option Params → Params
given_params none = []
given_params (some p) = p

unfoldable pub validate_config :
    (String → Option ℤ) → Rule → RuleConfig → Result RuleError (Unit {0})
validate_config parse r rc = do
  ensure (str_eq rc.severity "" || ltb 0 (severity_rank rc.severity))
      (invalid (bad_severity rc.severity))
  check_params (λ k. unknown_parameter k r.definition.name) r.definition.params
      (given_params rc.params)
  iv ← parse_timing parse "interval" rc.interval min_interval max_interval
  win ← parse_timing parse "window" rc.window min_window max_window
  ok tt

-- `for _, d := range ps { p[d.Name] = d.Default }`.
unfoldable pub with_defaults : List Param → Params → Params
with_defaults [] p = p
with_defaults (d ∷ ps) p = with_defaults ps (put d.name d.default p)

-- An override replaces the value of a key that is there.
unfoldable pub override_known : Params → Params → Params
override_known [] p = p
override_known ((k, v) ∷ given) p =
    override_known given (if is_some (get k p) then put k v p else p)

-- With no base every key is taken.
unfoldable pub override_all : Params → Params → Params
override_all [] p = p
override_all ((k, v) ∷ given) p = override_all given (put k v p)

abbrev pub or_list : Option (List String) → List String
or_list none = []
or_list (some l) = l

abbrev pub timing_override : Option ℤ → ℤ → ℤ
timing_override none default = default
timing_override (some d) default = if ltb_ℤ (pos 0) d then d else default

abbrev pub custom_params : Option Detector → Params → Params
custom_params none given = override_all given []
custom_params (some b) given = override_known given (with_defaults b.params [])

-- `effective` of a custom rule reads its row; that of a built-in one its overrides.
unfoldable pub effective_custom : Option Detector → CustomRule → Effective
unfolding with_defaults override_known override_all
effective_custom base c = record {
  enabled = c.enabled;
  severity = c.severity;
  params = custom_params base c.params;
  exempt = c.exempt_hosts;
  interval = c.interval;
  window = c.window;
}

abbrev pub or_enabled : Option Bool → Bool
or_enabled none = true
or_enabled (some b) = b

unfoldable pub effective_builtin : (String → Option ℤ) → Detector → RuleConfig → Effective
unfolding with_defaults override_known
effective_builtin parse d rc = record {
  enabled = or_enabled rc.enabled;
  severity = if ltb 0 (severity_rank rc.severity) then rc.severity else d.severity;
  params = override_known (given_params rc.params) (with_defaults d.params []);
  exempt = or_list rc.exempt_hosts;
  interval = timing_override (parse rc.interval) d.interval;
  window = timing_override (parse rc.window) d.window;
}

unfoldable pub effective : (String → Option ℤ) → Engine → Rule → Effective
effective parse e r = elim r.custom [
  | some c ↦ effective_custom r.base c
  | none ↦ effective_builtin parse r.definition (config_of r.definition.name e.cfg)
]

abbrev keep_option {ℓ} : {A : Type ℓ} → Option A → Option A → Option A
keep_option none old = old
keep_option (some new) old = some new

-- A timing override equal to the rule's default is cleared.
abbrev pub merge_timing : (String → Option ℤ) → ℤ → String → String → String
merge_timing parse default new old =
    if str_eq new "" then old else if eqb_ℤ (parse_or_zero (parse new)) default then "" else new

-- The override of a built-in rule after an update: only the fields given change.
unfoldable pub merge_config : (String → Option ℤ) → Detector → RuleConfig → RuleConfig → RuleConfig
merge_config parse d rc cur = record {
  enabled = keep_option rc.enabled cur.enabled;
  severity = if str_eq rc.severity "" then cur.severity else rc.severity;
  params = keep_option rc.params cur.params;
  exempt_hosts = keep_option rc.exempt_hosts cur.exempt_hosts;
  interval = merge_timing parse d.interval rc.interval cur.interval;
  window = merge_timing parse d.window rc.window cur.window;
}
