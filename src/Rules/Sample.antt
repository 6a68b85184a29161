-- ===== src/Rules/Sample.antt =====
-- An engine with one built-in rule, for the tests.
use pmacct_suricata_analyzer.Prelude.{
  true, false, [], ◌∷◌, String, Option, none, some, ok, if◌then◌else◌, str_eq,
}
use pmacct_suricata_analyzer.Prelude.Int.{ℤ, pos}
use pmacct_suricata_analyzer.Values.{int}
use pmacct_suricata_analyzer.Alerts.Rows.{Finding, Table}
use pmacct_suricata_analyzer.Exclusions.{Net, ExclusionSet}
use pmacct_suricata_analyzer.Rules.Types.{RuleConfig, no_config, Detector, Engine, Env, Sys}

abbrev pub scan : Finding
scan = record {
  rule = "";
  severity = "";
  host = "10.0.0.5";
  peer = "";
  port = 0;
  title = "scan";
  details = [];
  key = "";
}

abbrev pub port_scan : Detector
port_scan = record {
  name = "port_scan";
  title = "Port scan";
  description = "";
  severity = "warning";
  interval = pos 60_000_000_000;
  window = pos 600_000_000_000;
  params = record { name = "ports"; default = int (pos 20) } ∷ [];
  run = λ p w. ok (scan ∷ []);
}

-- One duration in text, with no spaces about it.
abbrev pub five_minutes : String → Option ℤ
five_minutes s = if str_eq s "5m" then some (pos 300_000_000_000) else none

abbrev pub plain_net : Net
plain_net = record {
  parse_addr = λ s. some s;
  parse_prefix = λ s. none;
  masked_prefix = λ s. none;
  single_addr = λ s. none;
  contains = λ n a. false;
  to_lower = λ s. s;
}

abbrev pub trusted : ExclusionSet
trusted = record { ips = ("10.0.0.9", "10.0.0.9") ∷ []; cidrs = []; names = [] }

abbrev pub env : Env
env = record {
  net = plain_net;
  inet = λ s. some s;
  parse_duration = five_minutes;
  nicknames = ok [];
  exclusions = ok trusted;
  names_for = λ ips. ok [];
  active_agents = ok 0;
  processes = λ h p n w. ok [];
  run_sql = λ q w. ok [];
  to_upper = λ s. s;
  has_db = true;
  has_notifier = true;
  renotify_after = pos 5;
  auto_resolve_after = pos 9;
  auto_resolve_fails = false;
  took = 1;
  alert_write_fails = λ f. false;
  setting_write_fails = false;
  custom_write_fails = false;
}

abbrev pub engine : Engine
engine = record { builtin = port_scan ∷ []; custom = []; cfg = []; state = [] }

abbrev pub no_alerts : Table
no_alerts = record { rows = []; next_id = 1 }

abbrev pub start : Sys
start = record {
  engine = engine;
  world = record { alerts = no_alerts; rules_setting = []; custom_rows = []; notified = [] };
}

abbrev pub every_five : RuleConfig
every_five = record no_config { interval = "5m" }

abbrev pub padded : RuleConfig
padded = record no_config { interval = " 5m" }
