-- ===== src/Retention/Tests.antt =====
-- Retention at concrete settings.
use pmacct_suricata_analyzer.Prelude.{◌≡◌, false, [], ◌∷◌, ok, some, keep}
use pmacct_suricata_analyzer.Prelude.Int.{pos}
use pmacct_suricata_analyzer.Alerts.Rows.{Table, is_live}
use pmacct_suricata_analyzer.Retention.{default_days, get_alert_retention, prune}
use pmacct_suricata_analyzer.Retention.Valid.{IsValid, get_alert_retention-IsValid, prune-keep-live}

get_alert_retention_example :
    IsValid
      (get_alert_retention (
        ok (
          some
            (record { auto_resolve_days = pos 3; delete_resolved_days = ("info", pos 0) ∷ [] })))).0
get_alert_retention_example =
    get_alert_retention-IsValid (
      ok (some (record { auto_resolve_days = pos 3; delete_resolved_days = ("info", pos 0) ∷ [] })))

abbrev empty_table : Table
empty_table = record { rows = []; next_id = 4 }

prune-keep-live_example :
    (keep is_live (prune 90 (λ s. false) default_days [] empty_table).1.rows
      ≡ keep is_live empty_table.rows)
    × ((prune 90 (λ s. false) default_days [] empty_table).1.next_id ≡ empty_table.next_id)
prune-keep-live_example = prune-keep-live 90 (λ s. false) default_days [] empty_table
