-- ===== src/Alerts/Tests.antt =====
-- The theorems on alerts at concrete tables.
use pmacct_suricata_analyzer.Prelude.{
  ◌+◌, ◌≡◌, refl, max, [], ◌∷◌, String, Option, none, some, arith, keep, count_where, join, find,
}
use pmacct_suricata_analyzer.Prelude.Int.{pos, back}
use pmacct_suricata_analyzer.Alerts.Rows.{
  Finding, Alert, Table, opened, resolved, is_live, dedupe_key, severity_rank,
}
use pmacct_suricata_analyzer.Alerts.{
  matches, insert_or_bump, delete_resolved_alerts, nullable_inet, auto_resolve_stale,
}
use pmacct_suricata_analyzer.Alerts.Unique.{IsSound}
use pmacct_suricata_analyzer.Alerts.Statements.{here, next, reopen, Reach-IsSound}
use pmacct_suricata_analyzer.Alerts.{reopen_alert}
use pmacct_suricata_analyzer.Alerts.Severity.{upsert_one_live, upsert_escalates}
use pmacct_suricata_analyzer.Alerts.Lifecycle.{
  delete_resolved_alerts-keep-live, AllSettle, auto_resolve-settles,
}

abbrev scan : Finding
scan = record {
  rule = "port_scan";
  severity = "critical";
  host = "10.0.0.5";
  peer = "";
  port = 0;
  title = "scan";
  details = [];
  key = "";
}

abbrev old_scan : Alert
old_scan = record {
  id = 1;
  rule = "port_scan";
  severity = "warning";
  host = some "10.0.0.5";
  peer = none;
  port = none;
  title = "scan";
  details = [];
  count = 3;
  first_seen = 10;
  last_seen = 20;
  state = opened;
  acked_at = none;
  resolved_at = none;
  notified_at = none;
  reopened_at = none;
  dedupe_key = "port_scan|10.0.0.5|";
}

abbrev done_scan : Alert
done_scan = record old_scan {
  id = 2;
  state = resolved;
  resolved_at = some 30;
  dedupe_key = "beacon|10.0.0.7|";
}

abbrev two_alerts : Table
two_alerts = record { rows = old_scan ∷ done_scan ∷ []; next_id = 3 }

two_alerts-IsSound : IsSound two_alerts
two_alerts-IsSound = record {
  fresh = (omega arith, (omega arith, tt));
  distinct = ((((λ e. absurd (omega (arith, e))), refl), tt), (tt, tt));
}

upsert_one_live_example :
    count_where (matches (dedupe_key scan)) (insert_or_bump 40 scan none none two_alerts).table.rows
    ≡ 1
upsert_one_live_example = upsert_one_live 40 scan none none two_alerts two_alerts-IsSound

upsert_escalates_example :
    (find (matches (dedupe_key scan)) (insert_or_bump 40 scan none none two_alerts).table.rows
      ≡ some (insert_or_bump 40 scan none none two_alerts).alert)
    × (severity_rank (insert_or_bump 40 scan none none two_alerts).alert.severity
        ≡ max (severity_rank "critical") (severity_rank "warning"))
unfolding dedupe_key join severity_rank
upsert_escalates_example = upsert_escalates 40 scan none none two_alerts old_scan refl (omega arith)

-- The addresses that the server reads are those that it is given.
abbrev plain : String → Option String
plain s = some s

abbrev one_alert : Table
one_alert = record { rows = old_scan ∷ []; next_id = 3 }

delete_resolved_example :
    (keep is_live one_alert.rows ≡ keep is_live two_alerts.rows)
    × (one_alert.next_id ≡ two_alerts.next_id)
unfolding delete_resolved_alerts nullable_inet
delete_resolved_example =
    delete_resolved_alerts-keep-live plain "" "" "" two_alerts {r = (1, one_alert)} refl

auto_resolve-settles_example :
    AllSettle 100
      (back 100 (pos 50))
      two_alerts.rows
      (auto_resolve_stale 100 (pos 50) two_alerts).1.rows
    × (count_where is_live (auto_resolve_stale 100 (pos 50) two_alerts).1.rows
          + (auto_resolve_stale 100 (pos 50) two_alerts).0
        ≡ count_where is_live two_alerts.rows)
auto_resolve-settles_example = auto_resolve-settles 100 (pos 50) two_alerts

Reach_example : IsSound (reopen_alert 50 2 two_alerts).2
Reach_example =
    Reach-IsSound plain {t = two_alerts} {u = (reopen_alert 50 2 two_alerts).2} two_alerts-IsSound
      (next {u = two_alerts} here (reopen 50 2 refl))
