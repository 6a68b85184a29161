-- ===== src/Rules/Engine.antt =====
-- The engine's operations in backend/internal/rules/rules.go: updating overrides, running a rule,
-- the scheduler's tick, previews, and findings of the intrusion detection system. The clock stands
-- at `now` during one run of a rule.
use pmacct_suricata_analyzer.Prelude.{
  ℕ, ◌-◌, Bool, true, false, not, ◌&&◌, ◌||◌, List, [], ◌∷◌, ◌++◌, String, Option, none, some,
  Result, ok, err, ◌>>=◌, if◌then◌else◌, ◌==◌, str_eq, trim_space, get, put, length,
}
use pmacct_suricata_analyzer.Prelude.Int.{ℤ, pos, sub_ℕ, ltb_ℤ, leb_ℤ}
use pmacct_suricata_analyzer.Values.{Value, int, param_int}
use pmacct_suricata_analyzer.Alerts.{DbError, failed, Upserted, upsert_alert, auto_resolve_stale}
use pmacct_suricata_analyzer.Alerts.Rows.{Finding, Alert, Table}
use pmacct_suricata_analyzer.Exclusions.{is_nil}
use pmacct_suricata_analyzer.Rules.Types.{
  RuleError, unknown_rule, invalid, query_failed, db_error, other, RuleConfig, Rule, Detector,
  RuleState, Window, Engine, Effective, Env, World, Sys, rules, rule, builtin_rule, to_rule,
  config_of, state_of,
}
use pmacct_suricata_analyzer.Rules.Config.{validate_config, merge_config, effective}
use pmacct_suricata_analyzer.Rules.Evaluate.{
  evaluate, resolve_exempt, apply_exclusions, attach_processes, member,
}
use pmacct_suricata_analyzer.Rules.Custom.{build_custom, as_invalid, update_custom_config}
use pmacct_suricata_analyzer.Rules.Spec.{CustomSpec, to_row}

-- `UpdateConfig` of a built-in rule: the live overrides change, then the setting is stored.
unfoldable pub store_config : Env → Detector → RuleConfig → Sys → Sys × Result RuleError (Unit {0})
store_config env d rc s =
    let cfg =
      put d.name (merge_config env.parse_duration d rc (config_of d.name s.engine.cfg))
        s.engine.cfg in
    let e = record (s.engine) { cfg = cfg } in
    if env.setting_write_fails
    then (record s { engine = e }, err (db_error failed))
    else (record { engine = e; world = record (s.world) { rules_setting = cfg } }, ok tt)

abbrev pub apply_update : Env → Rule → RuleConfig → Sys → Sys × Result RuleError (Unit {0})
apply_update env r rc s = elim r.custom [
  | some row ↦ update_custom_config env row rc s
  | none ↦ store_config env r.definition rc s
]

unfoldable pub update_config : Env → String → RuleConfig → Sys → Sys × Result RuleError (Unit {0})
unfolding store_config update_custom_config
update_config env name rc s = elim (rule s.engine name) [
  | none ↦ (s, err (unknown_rule name))
  | some r ↦ elim (validate_config env.parse_duration r rc) [
    | err x ↦ (s, err x)
    | ok _ ↦ apply_update env r rc s
  ]
]

-- `e.state[name]` changed, the entry made if it is missing.
abbrev pub set_state : String → (RuleState → RuleState) → Engine → Engine
set_state name f e = record e { state = put name (f (state_of name e.state)) e.state }

-- Whether an alert is handed to the notifier: new, never sent, or sent long enough ago.
abbrev pub is_raised : Env → ℕ → Upserted → Bool
is_raised env now u =
    u.inserted
    || elim u.alert.notified_at [ none ↦ true | some t ↦ ltb_ℤ env.renotify_after (sub_ℕ now t) ]

-- `UpsertAlert` from the engine, which may fail.
unfoldable pub try_upsert : Env → ℕ → Finding → Table → Result DbError Upserted
try_upsert env now f t =
    if env.alert_write_fails f then err failed else upsert_alert env.inet now f t

-- The loop over the findings: alerts written before a failure stay written.
unfoldable pub raise_all : Env → ℕ → List Finding → Table → Table × Result RuleError (List Alert)
raise_all env now [] t = (t, ok [])
raise_all env now (f ∷ fs) t = elim (try_upsert env now f t) [
  | err x ↦ (t, err (db_error x))
  | ok u ↦
      let (t', rest) = raise_all env now fs u.table in
      (t', (rest >>= λ raised. ok (if is_raised env now u then u.alert ∷ raised else raised)))
]

abbrev pub notify : Env → List Alert → World → World
notify env raised w =
    if is_nil raised || not env.has_notifier
    then w
    else record w { notified = w.notified ++ raised ∷ [] }

-- What follows the findings of a run.
unfoldable pub finish_run :
    Env → ℕ → String → List Finding → Sys → Sys × Result RuleError (List Alert)
unfolding raise_all
finish_run env now name fs s =
    let (t, res) = raise_all env now fs s.world.alerts in
    let w = record (s.world) { alerts = t } in
    elim res [
      | err x ↦ (record s { world = w }, err x)
      | ok raised ↦ (
        record {
          engine = set_state name (λ st. record st { last_count = length fs }) s.engine;
          world = notify env raised w;
        },
        ok raised,
      )
    ]

-- The state entry after the evaluation.
abbrev pub evaluated : Env → Option RuleError → RuleState → RuleState
evaluated env x st = record st { last_ms = env.took; last_err = x }

abbrev pub started : ℕ → RuleState → RuleState
started now st = record st { last_run = now }

-- The evaluation and what follows it, on the engine that has noted the start.
unfoldable pub run_started : Env → ℕ → String → Rule → Sys → Sys × Result RuleError (List Alert)
unfolding finish_run
run_started env now name r s = elim (evaluate env now s.engine r) [
  | err x ↦ (record s { engine = set_state name (evaluated env (some x)) s.engine }, err x)
  | ok fs ↦
      finish_run env now name fs
        (record s { engine = set_state name (evaluated env none) s.engine })
]

unfoldable pub run_rule : Env → ℕ → String → Bool → Sys → Sys × Result RuleError (List Alert)
unfolding run_started
run_rule env now name force s = elim (rule s.engine name) [
  | none ↦ (s, err (unknown_rule name))
  | some r ↦
      let s' = record s { engine = set_state name (started now) s.engine } in
      if not (effective env.parse_duration s.engine r).enabled && not force
      then (s', ok [])
      else run_started env now name r s'
]

-- Whether the interval has elapsed. A rule that never ran is due.
unfoldable pub is_due : Env → ℕ → Rule → Engine → Bool
is_due env now r e =
    let st = state_of r.definition.name e.state in
    st.last_run == 0 || leb_ℤ (effective env.parse_duration e r).interval (sub_ℕ now st.last_run)

unfoldable pub tick_rule : Env → ℕ → Rule → Sys → Sys
tick_rule env now r s =
    if is_due env now r s.engine then (run_rule env now r.definition.name false s).0 else s

unfoldable pub tick_rules : Env → ℕ → List Rule → Sys → Sys
tick_rules env now [] s = s
tick_rules env now (r ∷ rs) s = tick_rules env now rs (tick_rule env now r s)

-- `Tick`: the rules of the start, then the stale alerts.
unfoldable pub tick : Env → ℕ → Sys → Sys
tick env now s =
    let s' = tick_rules env now (rules s.engine) s in
    if env.auto_resolve_fails then s' else record s' {
      world = record (s'.world) {
        alerts = (auto_resolve_stale now env.auto_resolve_after s'.world.alerts).1;
      };
    }

-- `Preview`: nothing is written.
unfoldable pub preview : Env → ℕ → String → Engine → Result RuleError (List Finding)
preview env now name e = elim (rule e name) [
  | none ↦ err (unknown_rule name)
  | some r ↦ evaluate env now e r
]

abbrev user_error : Result RuleError (List Finding) → Result RuleError (List Finding)
user_error (ok fs) = ok fs
user_error (err (invalid i)) = err (invalid i)
user_error (err (unknown_rule n)) = err (invalid (query_failed n))
user_error (err (db_error _)) = err (invalid (query_failed "database error"))
user_error (err (other m)) = err (invalid (query_failed m))

-- `PreviewSpec`.
unfoldable pub preview_spec : Env → ℕ → CustomSpec → Engine → Result RuleError (List Finding)
preview_spec env now spec e = do
  let named = record spec {
    name = if str_eq (trim_space spec.name) "" then "preview_rule" else spec.name;
  }
  row ← to_row env e named
  r ← as_invalid (build_custom env e row)
  user_error (evaluate env now e r)

-- The alert is more severe than the limit allows: a higher number is a lower severity.
abbrev pub below_limit : Option Value → ℤ → Bool
below_limit (some (int sev)) limit = ltb_ℤ limit sev
below_limit _ limit = false

abbrev nanoseconds_300 : ℤ
nanoseconds_300 = pos 300_000_000_000

-- The findings of `RaiseIDS` that pass the rule's filters: the finding itself, or none.
unfoldable pub ids_kept : Env → Effective → Finding → Result RuleError (List Finding)
ids_kept env ef f =
    if not ef.enabled
      || below_limit (get "suricata_severity" f.details)
          (param_int ef.params "min_suricata_severity")
    then ok []
    else do
      set ← resolve_exempt env ef.exempt
      if member f.host set || member f.peer set
          then ok []
          else apply_exclusions env (record f { rule = "ids" } ∷ [])

-- The state the alert and its notification leave.
unfoldable pub raise_kept : Env → ℕ → List Finding → World → World × Result RuleError (Unit {0})
raise_kept env now [] w = (w, ok tt)
raise_kept env now (f ∷ _) w = elim (try_upsert env now f w.alerts) [
  | err x ↦ (w, err (db_error x))
  | ok u ↦ (
    notify env (if is_raised env now u then u.alert ∷ [] else []) (record w { alerts = u.table }),
    ok tt,
  )
]

abbrev pub ids_window : ℕ → Window
ids_window now = record { since = now - 300_000_000_000; until = now }

unfoldable pub raise_by : Env → ℕ → Detector → Finding → Sys → Sys × Result RuleError (Unit {0})
raise_by env now ids f s =
    elim (ids_kept env (effective env.parse_duration s.engine (to_rule ids)) f) [
      | err x ↦ (s, err x)
      | ok kept ↦
          let (w, res) = raise_kept env now (attach_processes env (ids_window now) kept) s.world in
          (record s { world = w }, res)
    ]

-- `RaiseIDS`. The rule is built in; without it the code would dereference a nil pointer.
unfoldable pub raise_ids : Env → ℕ → Finding → Sys → Sys × Result RuleError (Unit {0})
unfolding raise_by
raise_ids env now f s = elim (builtin_rule s.engine "ids") [
  | none ↦ (s, err (other "nil pointer dereference"))
  | some ids ↦ raise_by env now ids f s
]
