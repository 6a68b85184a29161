-- ===== src/Rules/Due.antt =====
-- When rules run (backend/internal/rules/rules.go, `RunRule` and `Tick`): a run changes only the run
-- states of the engine, and a rule that has run waits for its interval.
use pmacct_suricata_analyzer.Prelude.{
  ℕ, ◌≡◌, ◌≢◌, refl, ap, ◌∙◌, Bool, false, not, ◌&&◌, List, [], ◌∷◌, String, Option, none, some,
  inl, inr, arith, Bool-cases, Option-cases, Result-cases, if-either, ◌==◌, eq_iff, All, put,
  length,
}
use pmacct_suricata_analyzer.Prelude.Int.{ℤ, sub_ℕ, leb_ℤ}
use pmacct_suricata_analyzer.Alerts.Rows.{Finding}
use pmacct_suricata_analyzer.Rules.Types.{Rule, RuleState, Engine, Env, Sys, rule, rules, state_of}
use pmacct_suricata_analyzer.Rules.Config.{effective}
use pmacct_suricata_analyzer.Rules.Overrides.{get-put}
use pmacct_suricata_analyzer.Rules.Evaluate.{evaluate}
use pmacct_suricata_analyzer.Rules.Engine.{
  set_state, started, evaluated, raise_all, finish_run, run_started, run_rule, is_due, tick_rule,
  tick_rules, tick,
}

-- An engine that differs in its run states only.
pub record SameRules (e e' : Engine) : Type 0 where
  pub builtin : e'.builtin ≡ e.builtin
  pub custom : e'.custom ≡ e.custom
  pub cfg : e'.cfg ≡ e.cfg

pub SameRules-refl : (e : Engine) → SameRules e e
SameRules-refl e = record { builtin = refl; custom = refl; cfg = refl }

pub SameRules-trans : {e f g : Engine} → SameRules e f → SameRules f g → SameRules e g
SameRules-trans h k = record {
  builtin = k.builtin ∙ h.builtin;
  custom = k.custom ∙ h.custom;
  cfg = k.cfg ∙ h.cfg;
}

state_of-put :
    (k : String) (v : RuleState) (m : List (String × RuleState)) → state_of k (put k v m) ≡ v
state_of-put k v m = ground (arith, get-put k k v m, eq_iff k k)

module _ (env : Env) (now : ℕ) (name : String) where
  -- What a run that has started leaves: the same rules, and the time of the start.
  record Ran (s s' : Sys) : Type 0 where
    rules : SameRules s.engine s'.engine
    at : (state_of name s'.engine.state).last_run ≡ (state_of name s.engine.state).last_run

  set_state-Ran :
      (f : RuleState → RuleState) (s : Sys)
      → ((st : RuleState) → (f st).last_run ≡ st.last_run)
      → Ran s (record s { engine = set_state name f s.engine })
  set_state-Ran f s h = record {
    rules = record { builtin = refl; custom = refl; cfg = refl };
    at =
        ap (λ (st : RuleState). st.last_run) (state_of-put name _ s.engine.state)
        ∙ h (state_of name s.engine.state);
  }

  Ran-trans : {s t u : Sys} → Ran s t → Ran t u → Ran s u
  Ran-trans h k = record { rules = SameRules-trans h.rules k.rules; at = k.at ∙ h.at }

  finish_run-Ran : (fs : List Finding) (s : Sys) → Ran s (finish_run env now name fs s).0
  unfolding finish_run
  finish_run-Ran fs s = elim (Result-cases ((raise_all env now fs s.world.alerts).1)) [
    | inl (x, e) ↦ rw (e, finish_run) record { rules = SameRules-refl s.engine; at = refl }
    | inr (raised, e) ↦
        let after = set_state-Ran (λ st. record st { last_count = length fs }) s (λ st. refl) in
        rw (e, finish_run) record { rules = after.rules; at = after.at }
  ]

  run_started-Ran : (r : Rule) (s : Sys) → Ran s (run_started env now name r s).0
  unfolding run_started
  run_started-Ran r s = elim (Result-cases (evaluate env now s.engine r)) [
    | inl (x, e) ↦ rw (e, run_started) (set_state-Ran (evaluated env (some x)) s (λ st. refl))
    | inr (fs, e) ↦
        rw (e, run_started)
          (Ran-trans (set_state-Ran (evaluated env none) s (λ st. refl)) (finish_run-Ran fs _))
  ]

  run_rule-started :
      (force : Bool) (s : Sys) (r : Rule)
      → rule s.engine name ≡ some r
      → Ran
          (record s { engine = set_state name (started now) s.engine })
          (run_rule env now name force s).0
  unfolding run_rule
  run_rule-started force s r found =
      elim (Bool-cases (not (effective env.parse_duration s.engine r).enabled && not force)) [
        | inl off ↦
            rw (found, run_rule)
              (rw (off, run_rule)
                record {
                  rules = SameRules-refl (set_state name (started now) s.engine);
                  at = refl;
                })
        | inr on ↦ rw (found, run_rule) (rw (on, run_rule) (run_started-Ran r _))
      ]

  -- A run, whatever its outcome, changes no rule, custom rule or override of the engine.
  pub run_rule-SameRules :
      (force : Bool) (s : Sys) → SameRules s.engine (run_rule env now name force s).0.engine
  unfolding run_rule
  run_rule-SameRules force s = elim (Option-cases (rule s.engine name)) [
    | inl e ↦ rw (e, run_rule) (SameRules-refl s.engine)
    | inr (r, e) ↦
        let h = (run_rule-started force s r e).rules in
        record { builtin = h.builtin; custom = h.custom; cfg = h.cfg }
  ]

  -- After a run of a rule that exists, enabled or not and whatever its outcome, the rule has run at
  -- that time.
  pub run_rule-last_run :
      (force : Bool) (s : Sys) (r : Rule)
      → rule s.engine name ≡ some r
      → (state_of name (run_rule env now name force s).0.engine.state).last_run ≡ now
  run_rule-last_run force s r found =
      (run_rule-started force s r found).at
      ∙ ap (λ (st : RuleState). st.last_run) (state_of-put name _ s.engine.state)

effective-SameRules :
    (parse : String → Option ℤ) (e e' : Engine) (r : Rule)
    → SameRules e e'
    → effective parse e' r ≡ effective parse e r
unfolding effective
effective-SameRules parse e e' r h = rw h.cfg refl

-- A rule that ran at a time other than zero, enabled or not and whatever the outcome, is not due
-- again before its interval has elapsed.
pub run_rule-waits :
    (env : Env) (now later : ℕ) (force : Bool) (s : Sys) (r : Rule)
    → rule s.engine r.definition.name ≡ some r
    → now ≢ 0
    → leb_ℤ (effective env.parse_duration s.engine r).interval (sub_ℕ later now) ≡ false
    → is_due env later r (run_rule env now r.definition.name force s).0.engine ≡ false
unfolding is_due
run_rule-waits env now later force s r found ran early =
    let same =
      effective-SameRules env.parse_duration s.engine
        (run_rule env now r.definition.name force s).0.engine r
        (run_rule-SameRules env now r.definition.name force s) in
    let at = run_rule-last_run env now r.definition.name force s r found in
    let never : (now == 0) ≡ false = ground arith in rw at (rw same (rw (never, early) refl))

tick_rules-idle :
    (env : Env) (now : ℕ) (rs : List Rule) (s : Sys)
    → All (λ r. is_due env now r s.engine ≡ false) rs
    → tick_rules env now rs s ≡ s
unfolding tick_rules tick_rule
tick_rules-idle env now [] s h = refl
tick_rules-idle env now (r ∷ rs) s (q, h) =
    rw (q, tick_rules, tick_rule) (tick_rules-idle env now rs s h)

-- A tick at which no rule is due changes neither the engine, nor the overrides and custom rules
-- that are stored, nor what was handed to the notifier.
pub tick-idle :
    (env : Env) (now : ℕ) (s : Sys)
    → All (λ r. is_due env now r s.engine ≡ false) (rules s.engine)
    → ((tick env now s).engine ≡ s.engine)
      × ((tick env now s).world.rules_setting ≡ s.world.rules_setting)
      × ((tick env now s).world.custom_rows ≡ s.world.custom_rows)
      × ((tick env now s).world.notified ≡ s.world.notified)
unfolding tick
tick-idle env now s h =
    let idle = tick_rules-idle env now (rules s.engine) s h in
    if-either
      (λ (u : Sys).
        (u.engine ≡ s.engine)
        × (u.world.rules_setting ≡ s.world.rules_setting)
        × (u.world.custom_rows ≡ s.world.custom_rows)
        × (u.world.notified ≡ s.world.notified))
      env.auto_resolve_fails _ _ (rw idle (refl, refl, refl, refl))
      (rw idle (refl, refl, refl, refl))
