-- ===== src/Rules/Reach.antt =====
-- Runs of the engine's operations (backend/internal/rules) and of the statements on alerts between
-- them: what holds of the rules and the alerts throughout.
use pmacct_suricata_analyzer.Prelude.{
  ℕ, ◌≡◌, refl, Bool, false, not, List, [], ◌∷◌, String, Option, inl, inr, Bool-cases, Option-cases,
  Result-cases, if-either,
}
use pmacct_suricata_analyzer.Alerts.Rows.{Finding, Table}
use pmacct_suricata_analyzer.Alerts.Unique.{IsSound}
use pmacct_suricata_analyzer.Alerts.Statements.{Step, Step-IsSound}
use pmacct_suricata_analyzer.Rules.Types.{
  RuleConfig, CustomRule, Rule, Engine, Env, Sys, rule, rules, builtin_rule, to_rule, is_custom,
}
use pmacct_suricata_analyzer.Rules.Config.{validate_config, effective}
use pmacct_suricata_analyzer.Rules.Custom.{
  prepare, build_custom, updated_row, store_and_install, save_custom, update_custom_config,
  delete_custom,
}
use pmacct_suricata_analyzer.Rules.Spec.{CustomSpec}
use pmacct_suricata_analyzer.Rules.Engine.{
  update_config, store_config, run_rule, is_due, tick_rule, tick_rules, tick, ids_kept, raise_by,
  raise_ids,
}
use pmacct_suricata_analyzer.Rules.Runs.{run_rule-IsSound, tick-IsSound, raise_ids-IsSound}
use pmacct_suricata_analyzer.Rules.Due.{
  SameRules, SameRules-refl, SameRules-trans, run_rule-SameRules,
}
use pmacct_suricata_analyzer.Rules.Saved.{IsNamed}
use pmacct_suricata_analyzer.Rules.Updates.{
  save_custom-IsNamed, delete_custom-IsNamed, update_config-IsNamed,
}

IsNamed-SameRules : {e e' : Engine} → SameRules e e' → IsNamed e → IsNamed e'
unfolding rules
IsNamed-SameRules s h = record {
  distinct = rw (s.builtin, s.custom) h.distinct;
  customs = rw s.custom h.customs;
}

module _ (env : Env) (now : ℕ) where
  tick_rules-SameRules :
      (rs : List Rule) (s : Sys) → SameRules s.engine (tick_rules env now rs s).engine
  unfolding tick_rules tick_rule
  tick_rules-SameRules [] s = SameRules-refl s.engine
  tick_rules-SameRules (r ∷ rs) s =
      SameRules-trans
        (if-either (λ (u : Sys). SameRules s.engine u.engine) (is_due env now r s.engine) _ _
          (run_rule-SameRules env now r.definition.name false s) (SameRules-refl s.engine))
        (tick_rules-SameRules rs _)

  tick-SameRules : (s : Sys) → SameRules s.engine (tick env now s).engine
  unfolding tick
  tick-SameRules s =
      let h = tick_rules-SameRules (rules s.engine) s in
      if-either (λ (u : Sys). SameRules s.engine u.engine) env.auto_resolve_fails _ _ h h

  raise_ids-engine : (f : Finding) (s : Sys) → (raise_ids env now f s).0.engine ≡ s.engine
  unfolding raise_ids raise_by
  raise_ids-engine f s = elim (Option-cases (builtin_rule s.engine "ids")) [
    | inl e ↦ rw (e, raise_ids) refl
    | inr (ids, e) ↦
        elim (Result-cases (ids_kept env (effective env.parse_duration s.engine (to_rule ids)) f)) [
          | inl (x, k) ↦ rw (e, raise_ids) (rw (k, raise_by) refl)
          | inr (kept, k) ↦ rw (e, raise_ids) (rw (k, raise_by) refl)
        ]
  ]

module _ (env : Env) (s : Sys) where
  store_and_install-alerts :
      (row : CustomRule) (r : Rule)
      → (store_and_install env row r s).0.world.alerts ≡ s.world.alerts
  unfolding store_and_install
  store_and_install-alerts row r =
      if-either (λ (p : Sys × _). p.0.world.alerts ≡ s.world.alerts) env.custom_write_fails _ _ refl
        refl

  save_custom-alerts :
      (spec : CustomSpec) (create : Bool)
      → (save_custom env spec create s).0.world.alerts ≡ s.world.alerts
  unfolding save_custom
  save_custom-alerts spec create = elim (Result-cases (prepare env s.engine spec create)) [
    | inl (x, e) ↦ rw (e, save_custom) refl
    | inr ((row, r), e) ↦ rw (e, save_custom) (store_and_install-alerts row r)
  ]

  delete_custom-alerts : (n : String) → (delete_custom env n s).0.world.alerts ≡ s.world.alerts
  unfolding delete_custom
  delete_custom-alerts n = elim (Option-cases (rule s.engine n)) [
    | inl e ↦ rw (e, delete_custom) refl
    | inr (r, e) ↦
        rw (e, delete_custom)
          (elim (Bool-cases (not (is_custom r))) [
            | inl c ↦ rw c refl
            | inr c ↦
                rw c (elim (Bool-cases env.custom_write_fails) [
                  | inl f ↦ rw f refl
                  | inr f ↦ rw f refl
                ])
          ])
  ]

  update_custom_config-alerts :
      (row : CustomRule) (rc : RuleConfig)
      → (update_custom_config env row rc s).0.world.alerts ≡ s.world.alerts
  unfolding update_custom_config
  update_custom_config-alerts row rc =
      elim (Result-cases (build_custom env s.engine (updated_row env.parse_duration rc row))) [
        | inl (x, e) ↦ rw (e, update_custom_config) refl
        | inr (r, e) ↦ rw (e, update_custom_config) (store_and_install-alerts _ r)
      ]

  update_config-alerts :
      (n : String) (rc : RuleConfig) → (update_config env n rc s).0.world.alerts ≡ s.world.alerts
  unfolding update_config store_config
  update_config-alerts n rc = elim (Option-cases (rule s.engine n)) [
    | inl e ↦ rw (e, update_config) refl
    | inr (r, e) ↦ elim (Result-cases (validate_config env.parse_duration r rc)) [
      | inl (x, v) ↦ rw (e, update_config) (rw (v, update_config) refl)
      | inr (_, v) ↦
          rw (e, update_config)
            (rw (v, update_config)
              (elim (Option-cases r.custom) [
                | inl b ↦
                    rw (b, update_config)
                      (elim (Bool-cases env.setting_write_fails) [
                        | inl f ↦ rw f refl
                        | inr f ↦ rw f refl
                      ])
                | inr (row, b) ↦ rw (b, update_config) (update_custom_config-alerts row rc)
              ]))
    ]
  ]

-- One operation, whatever it answers, in an environment of its own.
pub data Moves (s : Sys) (u : Sys) : Type 0 where
  update : (env : Env) (n : String) (rc : RuleConfig) → u ≡ (update_config env n rc s).0 → Moves s u
  save :
      (env : Env) (spec : CustomSpec) (create : Bool)
      → u ≡ (save_custom env spec create s).0
      → Moves s u
  delete : (env : Env) (n : String) → u ≡ (delete_custom env n s).0 → Moves s u
  run :
      (env : Env) (now : ℕ) (n : String) (force : Bool)
      → u ≡ (run_rule env now n force s).0
      → Moves s u
  ticks : (env : Env) (now : ℕ) → u ≡ tick env now s → Moves s u
  ids : (env : Env) (now : ℕ) (f : Finding) → u ≡ (raise_ids env now f s).0 → Moves s u
  alert :
      (inet : String → Option String) (t : Table)
      → Step inet s.world.alerts t
      → u ≡ record s { world = record (s.world) { alerts = t } }
      → Moves s u

pub data Reaches (s : Sys) : Sys → Type 0 where
  here : Reaches s s
  next : {u v : Sys} → Reaches s u → Moves u v → Reaches s v

-- The rules' names are distinct, the custom rules stem from rows of their names, and the alerts are
-- sound.
pub record IsWell (s : Sys) : Type 0 where
  pub named : IsNamed s.engine
  pub alerts : IsSound s.world.alerts

Moves-IsWell : (s u : Sys) → Moves s u → IsWell s → IsWell u
Moves-IsWell s u (update env n rc e) h = rw e record {
  named = update_config-IsNamed env s h.named n rc;
  alerts = rw (update_config-alerts env s n rc) h.alerts;
}
Moves-IsWell s u (save env spec create e) h = rw e record {
  named = save_custom-IsNamed env s h.named spec create;
  alerts = rw (save_custom-alerts env s spec create) h.alerts;
}
Moves-IsWell s u (delete env n e) h = rw e record {
  named = delete_custom-IsNamed env s h.named n;
  alerts = rw (delete_custom-alerts env s n) h.alerts;
}
Moves-IsWell s u (run env now n force e) h = rw e record {
  named = IsNamed-SameRules (run_rule-SameRules env now n force s) h.named;
  alerts = run_rule-IsSound env now n force s h.alerts;
}
Moves-IsWell s u (ticks env now e) h = rw e record {
  named = IsNamed-SameRules (tick-SameRules env now s) h.named;
  alerts = tick-IsSound env now s h.alerts;
}
Moves-IsWell s u (ids env now f e) h = rw e record {
  named = rw (raise_ids-engine env now f s) h.named;
  alerts = raise_ids-IsSound env now f s h.alerts;
}
Moves-IsWell s u (alert inet t st e) h =
    rw e record { named = h.named; alerts = Step-IsSound inet s.world.alerts t st h.alerts }

-- From a state with distinct rule names and a sound alerts table, any run of the engine's operations
-- (updates of overrides, saves and deletions of custom rules, runs of a rule, ticks, alerts of the
-- intrusion detection system) and of statements on the alerts between them, each with any arguments,
-- any failures of the database and any detectors' answers, leads to a state in which no two rules
-- share a name, every custom rule stems from a row of its name, the alerts' ids are distinct and
-- below the sequence, and no two live alerts share a dedupe key.
pub Reaches-IsWell : {s u : Sys} → IsWell s → Reaches s u → IsWell u
Reaches-IsWell h here = h
Reaches-IsWell h (next {u = m} {v = n} r st) = Moves-IsWell m n st (Reaches-IsWell h r)
