-- ===== src/Rules/Custom.antt =====
-- User-defined rules (backend/internal/rules/custom.go, backend/internal/db/custom_rules.go):
-- building a rule of a row, and the live list.
use pmacct_suricata_analyzer.Prelude.{
  ◌*◌, Bool, true, false, not, List, [], ◌∷◌, ◌++◌, String, Option, none, some, Result, ok, err,
  ◌>>=◌, ◌>>◌, ensure, if◌then◌else◌, str_eq, ◌^^◌, get, put, remove, any, is_some,
}
use pmacct_suricata_analyzer.Prelude.Int.{ℤ, pos, pos_part, neg_part, sub_ℕ, ltb_ℤ}
use pmacct_suricata_analyzer.Values.{truncate}
use pmacct_suricata_analyzer.Alerts.{failed}
use pmacct_suricata_analyzer.Rules.Types.{
  name_taken, unbuildable, RuleError, unknown_rule, invalid, db_error, other, RuleConfig,
  CustomRule, Rule, RuleState, fresh_state, Engine, Env, Sys, is_named, rule, builtin_rule,
  is_custom,
}
use pmacct_suricata_analyzer.Rules.Config.{
  second, min_interval, max_interval, min_window, max_window, parse_timing,
}
use pmacct_suricata_analyzer.Rules.Spec.{CustomSpec, or_text, to_row}

-- `buildCustom`.
unfoldable pub build_custom : Env → Engine → CustomRule → Result RuleError Rule
build_custom env e row =
    if str_eq row.kind "sql"
    then ok (record {
      definition = record {
        name = row.name;
        title = row.title;
        description = row.description;
        severity = row.severity;
        interval = row.interval;
        window = row.window;
        params = [];
        run = λ p w. env.run_sql row.sql w;
      };
      custom = some row;
      base = none;
    })
    else if str_eq row.kind "builtin"
    then elim (builtin_rule e row.base) [
      | none ↦ err (other ("custom rule " ^^ (row.name ^^ ": base rule no longer exists")))
      | some b ↦ ok (record {
        definition = record {
          name = row.name;
          title = row.title;
          description = row.description;
          severity = row.severity;
          interval = row.interval;
          window = row.window;
          params = b.params;
          run = b.run;
        };
        custom = some row;
        base = some b;
      })
    ]
    else err (other ("custom rule " ^^ (row.name ^^ ": unknown kind")))

-- A state entry is made where there is none.
abbrev pub ensure_state : String → List (String × RuleState) → List (String × RuleState)
ensure_state name st = if is_some (get name st) then st else put name fresh_state st

-- The rows that can be built; the others are skipped.
unfoldable pub build_all : Env → Engine → List (String × CustomRule) → List Rule
build_all env e [] = []
build_all env e ((k, row) ∷ rows) =
    let rest = build_all env e rows in
    elim (build_custom env e row) [ ok r ↦ r ∷ rest | err _ ↦ rest ]

unfoldable pub ensure_states : List Rule → List (String × RuleState) → List (String × RuleState)
ensure_states [] st = st
ensure_states (r ∷ rs) st = ensure_states rs (ensure_state r.definition.name st)

-- `loadCustom`, on the rows that `ListCustomRules` answers.
unfoldable pub load_custom : Env → List (String × CustomRule) → Engine → Engine
unfolding build_all ensure_states
load_custom env rows e = record e {
  custom = build_all env e rows;
  state = ensure_states (build_all env e rows) e.state;
}

-- Every live rule of the name is replaced.
unfoldable pub replace_rule : Rule → List Rule → List Rule
replace_rule r [] = []
replace_rule r (c ∷ cs) = (if is_named r.definition.name c then r else c) ∷ replace_rule r cs

unfoldable pub install_rule : Rule → List Rule → List Rule
unfolding replace_rule
install_rule r cs = if any (is_named r.definition.name) cs then replace_rule r cs else cs ++ r ∷ []

-- `install`.
unfoldable pub install : Rule → Engine → Engine
unfolding install_rule
install r e = record e {
  custom = install_rule r e.custom;
  state = ensure_state r.definition.name e.state;
}

-- `int(d/time.Second)` seconds, read back as a duration.
unfoldable pub whole_seconds : ℤ → ℤ
whole_seconds d = let n = truncate d second in sub_ℕ (pos_part n * second) (neg_part n * second)

abbrev pub stored_row : CustomRule → CustomRule
stored_row row = record row {
  interval = whole_seconds row.interval;
  window = whole_seconds row.window;
}

-- `UpsertCustomRule`, then `install`.
unfoldable pub store_and_install : Env → CustomRule → Rule → Sys → Sys × Result RuleError Rule
store_and_install env row r s = if env.custom_write_fails then (s, err (db_error failed)) else (
  record s {
    engine = install r s.engine;
    world = record (s.world) { custom_rows = put row.name (stored_row row) s.world.custom_rows };
  },
  ok r,
)

-- Whether the name may be saved: free for a new rule, a custom rule's for an old one.
unfoldable pub name_check : Bool → String → Option Rule → Result RuleError (Unit {0})
name_check true name none = ok tt
name_check true name (some _) = err (invalid (name_taken name))
name_check false name none = err (unknown_rule name)
name_check false name (some r) = ensure (is_custom r) (unknown_rule name)

abbrev pub as_invalid : Result RuleError Rule → Result RuleError Rule
as_invalid (ok r) = ok r
as_invalid (err (other m)) = err (invalid (unbuildable m))
as_invalid (err e) = err e

-- The checks of `SaveCustom`, before anything is written.
unfoldable pub prepare : Env → Engine → CustomSpec → Bool → Result RuleError (CustomRule × Rule)
prepare env e spec create = do
  row ← to_row env e spec
  name_check create row.name (rule e row.name)
  r ← as_invalid (build_custom env e row)
  ok (row, r)

-- `SaveCustom`: the rule whose view is returned.
unfoldable pub save_custom : Env → CustomSpec → Bool → Sys → Sys × Result RuleError Rule
unfolding prepare store_and_install
save_custom env spec create s = elim (prepare env s.engine spec create) [
  | err x ↦ (s, err x)
  | ok (row, r) ↦ store_and_install env row r s
]

abbrev new_timing : Result RuleError ℤ → ℤ → ℤ
new_timing (err _) old = old
new_timing (ok d) old = if ltb_ℤ (pos 0) d then d else old

abbrev or_old {ℓ} : {A : Type ℓ} → Option A → A → A
or_old none old = old
or_old (some a) old = a

-- The row after a partial update.
unfoldable pub updated_row : (String → Option ℤ) → RuleConfig → CustomRule → CustomRule
updated_row parse rc row = record row {
  enabled = or_old rc.enabled row.enabled;
  severity = or_text rc.severity row.severity;
  params = or_old rc.params row.params;
  exempt_hosts = or_old rc.exempt_hosts row.exempt_hosts;
  interval =
      new_timing (parse_timing parse "interval" rc.interval min_interval max_interval) row.interval;
  window = new_timing (parse_timing parse "window" rc.window min_window max_window) row.window;
}

-- `updateCustomConfig`.
unfoldable pub update_custom_config :
    Env → CustomRule → RuleConfig → Sys → Sys × Result RuleError (Unit {0})
unfolding updated_row store_and_install
update_custom_config env row rc s =
    elim (build_custom env s.engine (updated_row env.parse_duration rc row)) [
      | err x ↦ (s, err x)
      | ok r ↦
          let (s', done) = store_and_install env (updated_row env.parse_duration rc row) r s in
          (s', (done >>= λ _. ok tt))
    ]

-- The first live rule of the name goes.
unfoldable pub remove_rule : String → List Rule → List Rule
remove_rule name [] = []
remove_rule name (c ∷ cs) =
    let rest = remove_rule name cs in if is_named name c then cs else c ∷ rest

-- `DeleteCustom`.
unfoldable pub delete_custom : Env → String → Sys → Sys × Result RuleError (Unit {0})
unfolding remove_rule
delete_custom env name s = elim (rule s.engine name) [
  | none ↦ (s, err (unknown_rule name))
  | some r ↦
      if not (is_custom r)
      then (s, err (unknown_rule name))
      else if env.custom_write_fails
      then (s, err (db_error failed))
      else (
        record {
          engine = record (s.engine) {
            custom = remove_rule name s.engine.custom;
            state = remove name s.engine.state;
          };
          world = record (s.world) { custom_rows = remove name s.world.custom_rows };
        },
        ok tt,
      )
]
