-- ===== src/Rules/SpecTests.antt =====
-- A user-defined rule on the base of a built-in one, accepted and built.
use pmacct_suricata_analyzer.Prelude.{◌≡◌, refl, [], none, ok, true, trim_space}
use pmacct_suricata_analyzer.Alerts.Rows.{severity_rank}
use pmacct_suricata_analyzer.Prelude.Int.{pos}
use pmacct_suricata_analyzer.Rules.Types.{CustomRule, Rule, builtin_rule}
use pmacct_suricata_analyzer.Rules.Config.{parse_timing, check_params}
use pmacct_suricata_analyzer.Rules.Spec.{CustomSpec, to_row, trimmed_hosts}
use pmacct_suricata_analyzer.Rules.Custom.{build_custom}
use pmacct_suricata_analyzer.Rules.Accepted.{IsRow, to_row-IsRow, to_row-builds}
use pmacct_suricata_analyzer.Rules.Sample.{env, engine}

abbrev quick_scan : CustomSpec
quick_scan = record {
  name = " quick_scan";
  title = "";
  description = "scans, sooner";
  kind = "builtin";
  base = "port_scan";
  sql = "";
  params = none;
  severity = "";
  interval = "5m";
  window = "";
  enabled = none;
  exempt_hosts = [];
}

abbrev quick_row : CustomRule
quick_row = record {
  name = "quick_scan";
  title = "quick_scan";
  description = "scans, sooner";
  kind = "builtin";
  base = "port_scan";
  sql = "";
  params = [];
  severity = "warning";
  interval = pos 300_000_000_000;
  window = pos 600_000_000_000;
  enabled = true;
  exempt_hosts = [];
}

quick_scan_accepted : to_row env engine quick_scan ≡ ok quick_row
unfolding to_row parse_timing check_params builtin_rule trimmed_hosts trim_space severity_rank
quick_scan_accepted = refl

to_row-IsRow_example : IsRow env engine quick_row
to_row-IsRow_example = to_row-IsRow env engine quick_scan quick_scan_accepted

to_row-builds_example : (r : Rule) × (build_custom env engine quick_row ≡ ok r)
to_row-builds_example = to_row-builds env engine quick_scan quick_scan_accepted
