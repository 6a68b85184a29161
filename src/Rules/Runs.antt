-- ===== src/Rules/Runs.antt =====
-- Running rules (backend/internal/rules/rules.go): `RunRule`, `Tick` and `RaiseIDS` keep the alerts
-- table sound and touch no rule; an alert is handed on only when it is due for a notification.
use pmacct_suricata_analyzer.Prelude.{
  ℕ, ◌≤◌, ◌≡◌, refl, sym, ap, ◌∙◌, Bool, true, false, not, ◌&&◌, ◌||◌, List, [], ◌∷◌, String,
  Option, none, some, ok, >>=-eq-ok, ok-injective, inl, inr, arith, Bool-cases, Option-cases,
  Result-cases, if◌then◌else◌, if-either, length, All, find,
}
use pmacct_suricata_analyzer.Prelude.Int.{sub_ℕ, ltb_ℤ}
use pmacct_suricata_analyzer.Alerts.{Upserted, upsert_alert, insert_or_bump, new_alert, matches}
use pmacct_suricata_analyzer.Alerts.Rows.{Finding, Alert, Table, dedupe_key}
use pmacct_suricata_analyzer.Alerts.Unique.{IsSound}
use pmacct_suricata_analyzer.Alerts.Statements.{
  upsert_alert-eq-ok, upsert_alert-IsSound, auto_resolve_stale-IsSound,
}
use pmacct_suricata_analyzer.Exclusions.{is_nil}
use pmacct_suricata_analyzer.Rules.Types.{
  Rule, Detector, Env, World, Sys, rule, rules, builtin_rule, to_rule,
}
use pmacct_suricata_analyzer.Rules.Config.{effective}
use pmacct_suricata_analyzer.Rules.Evaluate.{evaluate}
use pmacct_suricata_analyzer.Rules.Engine.{
  is_raised, try_upsert, raise_all, finish_run, run_started, run_rule, is_due, tick_rule,
  tick_rules, tick, ids_kept, raise_kept, raise_ids, raise_by, notify,
}

module _ (env : Env) (now : ℕ) where
  try_upsert-eq-ok :
      (f : Finding) (t : Table) {u : Upserted}
      → try_upsert env now f t ≡ ok u
      → upsert_alert env.inet now f t ≡ ok u
  unfolding try_upsert
  try_upsert-eq-ok f t e = elim (Bool-cases (env.alert_write_fails f)) [
    | inl bad ↦ absurd (cc (rw bad at e))
    | inr good ↦ rw good at e
  ]

  raise_all-IsSound :
      (fs : List Finding) (t : Table) → IsSound t → IsSound (raise_all env now fs t).0
  unfolding raise_all
  raise_all-IsSound [] t s = s
  raise_all-IsSound (f ∷ fs) t s = elim (Result-cases (try_upsert env now f t)) [
    | inl (x, e) ↦ rw (e, raise_all) s
    | inr (u, e) ↦
        rw (e, raise_all)
          (raise_all-IsSound fs u.table
            (upsert_alert-IsSound env.inet now f t s (try_upsert-eq-ok f t e)))
  ]

  -- An alert that was never sent, or was last sent longer ago than the engine waits.
  pub data IsDue (a : Alert) : Type 0 where
    never_sent : a.notified_at ≡ none → IsDue a
    sent_before :
        (t : ℕ) → a.notified_at ≡ some t → ltb_ℤ env.renotify_after (sub_ℕ now t) ≡ true → IsDue a

  new_is_unsent :
      (f : Finding) (host peer : Option String) (t : Table)
      → (insert_or_bump now f host peer t).inserted ≡ true
      → (insert_or_bump now f host peer t).alert.notified_at ≡ none
  unfolding insert_or_bump new_alert
  new_is_unsent f host peer t h = elim (Option-cases (find (matches (dedupe_key f)) t.rows)) [
    | inl e ↦ rw (e, insert_or_bump) refl
    | inr (a, e) ↦ absurd (cc (rw (e, insert_or_bump) at h))
  ]

  inserted_is_unsent :
      (f : Finding) (t : Table) {u : Upserted}
      → upsert_alert env.inet now f t ≡ ok u
      → u.inserted ≡ true
      → u.alert.notified_at ≡ none
  inserted_is_unsent f t {u} e h =
      let (host, peer, same) = upsert_alert-eq-ok env.inet now f t e in
      let sent : (insert_or_bump now f host peer t).inserted ≡ true =
        ap (λ (w : Upserted). w.inserted) same ∙ h in
      sym (ap (λ (w : Upserted). w.alert.notified_at) same) ∙ new_is_unsent f host peer t sent

  is_raised-IsDue :
      (u : Upserted)
      → (u.inserted ≡ true → u.alert.notified_at ≡ none)
      → is_raised env now u ≡ true
      → IsDue u.alert
  is_raised-IsDue u new h = elim (Option-cases u.alert.notified_at) [
    | inl e ↦ never_sent e
    | inr (t, e) ↦ elim (Bool-cases u.inserted) [
      | inl i ↦ never_sent (new i)
      | inr i ↦ sent_before t e (rw (i, e) at h)
    ]
  ]

  -- Every alert that a batch of findings hands to the notifier was never sent before, or was last
  -- sent longer ago than the engine waits, and there is at most one for each finding.
  pub raise_all-IsDue :
      (fs : List Finding) (t : Table) {raised : List Alert}
      → (raise_all env now fs t).1 ≡ ok raised
      → All IsDue raised × (length raised ≤ length fs)
  unfolding raise_all
  raise_all-IsDue [] t e = let same = ok-injective e in rw (← same) (tt, omega arith)
  raise_all-IsDue (f ∷ fs) t {raised} e = elim (Result-cases (try_upsert env now f t)) [
    | inl (x, q) ↦ absurd (cc (rw (q, raise_all) at e))
    | inr (u, q) ↦
        let (more, m, k) =
          >>=-eq-ok ((raise_all env now fs u.table).1) _ (rw (q, raise_all) at e) in
        let (due, short) = raise_all-IsDue fs u.table m in
        elim (Bool-cases (is_raised env now u)) [
          | inl r ↦
              let same : (u.alert ∷ more) ≡ raised = ok-injective (rw r at k) in
              rw (← same) (
                (is_raised-IsDue u (inserted_is_unsent f t (try_upsert-eq-ok f t q)) r, due),
                omega (arith, short),
              )
          | inr r ↦
              let same : more ≡ raised = ok-injective (rw r at k) in
              rw (← same) (due, omega (arith, short))
        ]
  ]

  notify-alerts : (raised : List Alert) (w : World) → (notify env raised w).alerts ≡ w.alerts
  notify-alerts raised w = elim (Bool-cases (is_nil raised || not env.has_notifier)) [
    | inl e ↦ rw e refl
    | inr e ↦ rw e refl
  ]

  module _ (name : String) where
    finish_run-IsSound :
        (fs : List Finding) (s : Sys)
        → IsSound s.world.alerts
        → IsSound (finish_run env now name fs s).0.world.alerts
    unfolding finish_run
    finish_run-IsSound fs s h = elim (Result-cases ((raise_all env now fs s.world.alerts).1)) [
      | inl (x, e) ↦ rw (e, finish_run) (raise_all-IsSound fs s.world.alerts h)
      | inr (raised, e) ↦
          rw (e, finish_run) (rw (notify-alerts raised) (raise_all-IsSound fs s.world.alerts h))
    ]

    run_started-IsSound :
        (r : Rule) (s : Sys)
        → IsSound s.world.alerts
        → IsSound (run_started env now name r s).0.world.alerts
    unfolding run_started
    run_started-IsSound r s h = elim (Result-cases (evaluate env now s.engine r)) [
      | inl (x, e) ↦ rw (e, run_started) h
      | inr (fs, e) ↦ rw (e, run_started) (finish_run-IsSound fs _ h)
    ]

    pub run_rule-IsSound :
        (force : Bool) (s : Sys)
        → IsSound s.world.alerts
        → IsSound (run_rule env now name force s).0.world.alerts
    unfolding run_rule
    run_rule-IsSound force s h = elim (Option-cases (rule s.engine name)) [
      | inl e ↦ rw (e, run_rule) h
      | inr (r, e) ↦
          elim (Bool-cases (not (effective env.parse_duration s.engine r).enabled && not force)) [
            | inl off ↦ rw (e, run_rule) (rw (off, run_rule) h)
            | inr on ↦ rw (e, run_rule) (rw (on, run_rule) (run_started-IsSound r _ h))
          ]
    ]

  tick_rule-IsSound :
      (r : Rule) (s : Sys) → IsSound s.world.alerts → IsSound (tick_rule env now r s).world.alerts
  unfolding tick_rule
  tick_rule-IsSound r s h = elim (Bool-cases (is_due env now r s.engine)) [
    | inl e ↦ rw e (run_rule-IsSound r.definition.name false s h)
    | inr e ↦ rw e h
  ]

  tick_rules-IsSound :
      (rs : List Rule) (s : Sys)
      → IsSound s.world.alerts
      → IsSound (tick_rules env now rs s).world.alerts
  unfolding tick_rules
  tick_rules-IsSound [] s h = h
  tick_rules-IsSound (r ∷ rs) s h =
      tick_rules-IsSound rs (tick_rule env now r s) (tick_rule-IsSound r s h)

  pub tick-IsSound : (s : Sys) → IsSound s.world.alerts → IsSound (tick env now s).world.alerts
  unfolding tick
  tick-IsSound s h =
      let k = tick_rules-IsSound (rules s.engine) s h in
      if-either (λ (u : Sys). IsSound u.world.alerts) env.auto_resolve_fails _ _ k
        (auto_resolve_stale-IsSound now env.auto_resolve_after _ k)

  raise_kept-IsSound :
      (fs : List Finding) (w : World)
      → IsSound w.alerts
      → IsSound (raise_kept env now fs w).0.alerts
  unfolding raise_kept
  raise_kept-IsSound [] w h = h
  raise_kept-IsSound (f ∷ _) w h = elim (Result-cases (try_upsert env now f w.alerts)) [
    | inl (x, e) ↦ rw (e, raise_kept) h
    | inr (u, e) ↦
        let after =
          upsert_alert-IsSound env.inet now f w.alerts h (try_upsert-eq-ok f w.alerts e) in
        rw (e, raise_kept)
          (rw
            (notify-alerts (if is_raised env now u then u.alert ∷ [] else [])
              (record w { alerts = u.table }))
            after)
  ]

  raise_by-IsSound :
      (ids : Detector) (f : Finding) (s : Sys)
      → IsSound s.world.alerts
      → IsSound (raise_by env now ids f s).0.world.alerts
  unfolding raise_by
  raise_by-IsSound ids f s h =
      elim (Result-cases (ids_kept env (effective env.parse_duration s.engine (to_rule ids)) f)) [
        | inl (x, k) ↦ rw (k, raise_by) h
        | inr (kept, k) ↦ rw (k, raise_by) (raise_kept-IsSound _ s.world h)
      ]

  pub raise_ids-IsSound :
      (f : Finding) (s : Sys)
      → IsSound s.world.alerts
      → IsSound (raise_ids env now f s).0.world.alerts
  unfolding raise_ids
  raise_ids-IsSound f s h = elim (Option-cases (builtin_rule s.engine "ids")) [
    | inl e ↦ rw (e, raise_ids) h
    | inr (ids, e) ↦ rw (e, raise_ids) (raise_by-IsSound ids f s h)
  ]
