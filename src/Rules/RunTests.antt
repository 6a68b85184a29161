-- ===== src/Rules/RunTests.antt =====
-- Evaluations and runs of the one built-in rule.
use pmacct_suricata_analyzer.Prelude.{
  ◌≤◌, ◌≡◌, ◌⊎◌, refl, List, [], ◌∷◌, String, none, some, ok, All, length, ne_of_str_eq,
}
use pmacct_suricata_analyzer.Alerts.Rows.{severity_rank}
use pmacct_suricata_analyzer.Alerts.{
  new_alert, upsert_alert, nullable_inet, inet_of, insert_or_bump,
}
use pmacct_suricata_analyzer.Alerts.Rows.{Alert}
use pmacct_suricata_analyzer.Exclusions.{is_empty, has_names, match, match_ip, covering}
use pmacct_suricata_analyzer.Rules.Types.{Sys, to_rule}
use pmacct_suricata_analyzer.Rules.Config.{effective, effective_builtin, effective_custom}
use pmacct_suricata_analyzer.Rules.Evaluate.{
  not_exempt, untrusted, complete, evaluate, resolve_exempt, apply_exclusions, attach_processes,
}
use pmacct_suricata_analyzer.Rules.Engine.{try_upsert, raise_all}
use pmacct_suricata_analyzer.Rules.Findings.{
  IsReported, evaluate-IsReported, AreNames, Passes, evaluate-untrusted,
}
use pmacct_suricata_analyzer.Rules.Runs.{IsDue, raise_all-IsDue}
use pmacct_suricata_analyzer.Rules.Sample.{
  scan, port_scan, five_minutes, trusted, env, engine, no_alerts, start,
}

evaluate-IsReported_example :
    (set : List String) × (resolve_exempt env
        (effective five_minutes engine (to_rule port_scan)).exempt
      ≡ ok set)
    × All
        (IsReported (to_rule port_scan) set)
        (record scan { rule = "port_scan"; severity = "warning" } ∷ [])
unfolding evaluate resolve_exempt apply_exclusions attach_processes effective_builtin
    effective_custom severity_rank effective has_names is_empty match match_ip covering
evaluate-IsReported_example =
    evaluate-IsReported env 50 engine (to_rule port_scan)
      {fs = record scan { rule = "port_scan"; severity = "warning" } ∷ []}
      (ne_of_str_eq "warning" "" refl) refl

evaluate-untrusted_example :
    ((record scan { rule = "port_scan"; severity = "warning" } ∷ []) ≡ [])
    ⊎ ((seen : List String) × (names : List (String × List String)) × AreNames env trusted seen
          names
        × All
            (Passes env trusted seen names)
            (record scan { rule = "port_scan"; severity = "warning" } ∷ []))
unfolding evaluate resolve_exempt apply_exclusions attach_processes effective_builtin
    effective_custom severity_rank is_empty has_names match match_ip covering not_exempt untrusted
    complete effective
evaluate-untrusted_example =
    evaluate-untrusted env 50 engine (to_rule port_scan) trusted
      {fs = record scan { rule = "port_scan"; severity = "warning" } ∷ []} refl refl refl refl

abbrev raised : Alert
raised = new_alert 1 50 scan (some "10.0.0.5") none

raise_all-IsDue_example :
    All (IsDue env 50) (raised ∷ []) × (length (raised ∷ []) ≤ length (scan ∷ []))
unfolding raise_all try_upsert upsert_alert nullable_inet inet_of insert_or_bump
raise_all-IsDue_example = raise_all-IsDue env 50 (scan ∷ []) no_alerts {raised = raised ∷ []} refl

abbrev has_run : Sys
has_run = record start {
  engine = record engine {
    state =
        ("port_scan", record { last_run = 50; last_count = 0; last_err = none; last_ms = 0 }) ∷ [];
  };
}
