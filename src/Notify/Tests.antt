-- ===== src/Notify/Tests.antt =====
-- The dispatcher at concrete batches.
use pmacct_suricata_analyzer.Prelude.{
  suc, ◌+◌, ◌≡◌, refl, true, false, not, ◌&&◌, [], ◌∷◌, ◌++◌, none, some, ok, any, keep,
  count_where, if◌then◌else◌, trim_space,
}
use pmacct_suricata_analyzer.Prelude.Int.{pos}
use pmacct_suricata_analyzer.Alerts.{mark_notified}
use pmacct_suricata_analyzer.Alerts.Rows.{Alert, Table, opened}
use pmacct_suricata_analyzer.Notify.{Dispatcher, Setup, render, ids, flush, passes}
use pmacct_suricata_analyzer.Notify.Quiet.{in_quiet_hours}
use pmacct_suricata_analyzer.Notify.Delivery.{
  takes, refuses, flush_counts, notify_all, all_of, notify_all-pending,
}

abbrev scan : Alert
scan = record {
  id = 1;
  rule = "port_scan";
  severity = "critical";
  host = some "10.0.0.5";
  peer = none;
  port = none;
  title = "scan";
  details = [];
  count = 1;
  first_seen = 10;
  last_seen = 10;
  state = opened;
  acked_at = none;
  resolved_at = none;
  notified_at = none;
  reopened_at = none;
  dedupe_key = "port_scan|10.0.0.5|";
}

abbrev idle : Dispatcher
idle = record { pending = []; sent = 0; failed = 0; last = 0; last_err = ""; min_severity = "" }

abbrev waiting : Dispatcher
waiting = record idle { pending = scan ∷ [] }

abbrev alerts : Table
alerts = record { rows = scan ∷ []; next_id = 2 }

-- A channel that takes messages and one that does not, and a digest.
abbrev digest : Setup
digest = record {
  channels =
      record { name = "webhook"; send = λ m. none }
      ∷ record { name = "slack"; send = λ m. some "http 500" }
      ∷ [];
  notify_min_severity = "warning";
  notify_digest = pos 60;
  notify_quiet_hours = "";
  hour = λ t. 12;
  to_lower = λ s. s;
  has_db = true;
  stored = ok none;
  setting_fails = false;
  mark_fails = false;
}

flush_counts_example :
    ((flush digest 50 waiting alerts).0.pending ≡ [])
    × ((flush digest 50 waiting alerts).0.failed
        ≡ waiting.failed + count_where (refuses (render waiting.pending)) digest.channels)
    × ((flush digest 50 waiting alerts).0.sent ≡ (
        if any (takes (render waiting.pending)) digest.channels
        then suc waiting.sent
        else waiting.sent))
    × ((flush digest 50 waiting alerts).0.last
        ≡ (if any (takes (render waiting.pending)) digest.channels then 50 else waiting.last))
    × ((flush digest 50 waiting alerts).1 ≡ (
        if any (takes (render waiting.pending)) digest.channels
          && digest.has_db
          && not digest.mark_fails
        then mark_notified 50 (ids waiting.pending) alerts
        else alerts))
unfolding in_quiet_hours trim_space
flush_counts_example = flush_counts digest 50 waiting alerts refl refl

notify_all-pending_example :
    notify_all digest 50 ((scan ∷ []) ∷ (scan ∷ []) ∷ []) (idle, alerts) ≡ (
      record idle {
        pending =
            idle.pending ++ keep (passes digest idle) (all_of ((scan ∷ []) ∷ (scan ∷ []) ∷ []));
      },
      alerts,
    )
notify_all-pending_example =
    notify_all-pending digest 50 refl refl ((scan ∷ []) ∷ (scan ∷ []) ∷ []) idle alerts
