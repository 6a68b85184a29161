-- ===== src/Retention.antt =====
-- The life of stored data (backend/internal/db/alert_retention.go and agent_retention.go): validated
-- settings with defaults, and the pruning of resolved alerts.
pub mod Valid
mod Tests
use pmacct_suricata_analyzer.Prelude.{
  ℕ, ◌*◌, Bool, true, false, not, ◌&&◌, ◌||◌, List, [], ◌∷◌, String, Option, none, some, Result, ok,
  err, ◌>>=◌, ◌>>◌, ensure, if◌then◌else◌, ltb, ◌==◌, str_eq, get, put, drop_where, count_where,
}
use pmacct_suricata_analyzer.Prelude.Int.{ℤ, pos, pos_part, neg_part, ltb_ℤ, leb_ℤ, back}
use pmacct_suricata_analyzer.Alerts.Rows.{Alert, Table, severity_rank, is_live}

pub data RetentionError : Type 0 where
  bad_auto_resolve bad_conn_days bad_stale_days : RetentionError
  unknown_severity : String → RetentionError
  bad_days : String → RetentionError
  db_failed : RetentionError

-- `AlertRetention`; the map of days holds a severity once.
pub record AlertRetention : Type 0 where
  pub auto_resolve_days : ℤ
  pub delete_resolved_days : List (String × ℤ)

abbrev pub default_days : List (String × ℤ)
default_days = ("info", pos 7) ∷ ("warning", pos 60) ∷ ("critical", pos 60) ∷ []

abbrev pub default_alert_retention : AlertRetention
default_alert_retention = record { auto_resolve_days = pos 7; delete_resolved_days = default_days }

abbrev pub within : ℤ → ℤ → ℤ → Bool
within low high d = not (ltb_ℤ d low || ltb_ℤ high d)

-- Every severity of the map is a known one.
unfoldable pub check_severities : List (String × ℤ) → Result RetentionError (Unit {0})
check_severities [] = ok tt
check_severities ((s, d) ∷ days) =
    ensure (not (severity_rank s == 0)) (unknown_severity s) >> check_severities days

-- A severity that is missing gets its default; one that is there is checked.
unfoldable pub fill : String → ℤ → List (String × ℤ) → Result RetentionError (List (String × ℤ))
fill s d days = elim (get s days) [
  | none ↦ ok (put s d days)
  | some v ↦ if within (pos 0) (pos 3650) v then ok days else err (bad_days s)
]

unfoldable pub fill_all :
    List (String × ℤ) → List (String × ℤ) → Result RetentionError (List (String × ℤ))
unfolding fill
fill_all [] days = ok days
fill_all ((s, d) ∷ defaults) days = fill s d days >>= λ filled. fill_all defaults filled

-- `Validate`, with the settings that it leaves.
unfoldable pub validate : AlertRetention → Result RetentionError AlertRetention
unfolding check_severities fill_all
validate r = do
  ensure (within (pos 1) (pos 365) r.auto_resolve_days) bad_auto_resolve
  check_severities r.delete_resolved_days
  days ← fill_all default_days r.delete_resolved_days
  ok (record r { delete_resolved_days = days })

-- `GetAlertRetention`, on what the setting holds: the settings, and whether reading them failed.
unfoldable pub get_alert_retention :
    Result RetentionError (Option AlertRetention) → AlertRetention × Bool
get_alert_retention (err _) = (default_alert_retention, true)
get_alert_retention (ok none) = (default_alert_retention, false)
get_alert_retention (ok (some r)) = elim (validate r) [
  | err _ ↦ (default_alert_retention, false)
  | ok r' ↦ (r', false)
]

-- `SetAlertRetention`: what the setting holds afterwards.
unfoldable pub set_alert_retention :
    Bool
    → AlertRetention
    → Option AlertRetention
    → Option AlertRetention × Result RetentionError (Unit {0})
set_alert_retention fails r stored = elim (validate r) [
  | err e ↦ (stored, err e)
  | ok r' ↦ if fails then (stored, err db_failed) else (some r', ok tt)
]

-- Nanoseconds in a day.
abbrev pub day : ℕ
day = 86_400_000_000_000

abbrev resolved_before : ℕ → Option ℕ → Bool
resolved_before t none = false
resolved_before t (some u) = ltb u t

abbrev pub is_old : ℕ → String → ℤ → Alert → Bool
is_old now s days a =
    not (is_live a)
    && str_eq a.severity s
    && resolved_before (back now (pos (pos_part days * day))) a.resolved_at

abbrev counted : String → ℕ → List (String × ℕ) → List (String × ℕ)
counted s n out = if ltb 0 n then put s n out else out

-- `PruneResolvedAlerts`: the counts, and the table; the severities are taken in the order of the
-- list.
unfoldable pub prune :
    ℕ
    → (String → Bool)
    → List (String × ℤ)
    → List (String × ℕ)
    → Table
    → Result RetentionError (List (String × ℕ)) × Table
prune now fails [] out t = (ok out, t)
prune now fails ((s, days) ∷ more) out t =
    let skipped = prune now fails more out t in
    let pruned =
      prune now fails more (counted s (count_where (is_old now s days) t.rows) out)
        (record t { rows = drop_where (is_old now s days) t.rows }) in
    if leb_ℤ days (pos 0) then skipped else if fails s then (err db_failed, t) else pruned

-- `AgentRetention`.
pub record AgentRetention : Type 0 where
  pub conn_days : ℤ
  pub stale_agent_days : ℤ
  pub auto_update : Bool

abbrev pub default_agent_retention : AgentRetention
default_agent_retention = record {
  conn_days = pos 15;
  stale_agent_days = pos 0;
  auto_update = true;
}

unfoldable pub validate_agent : AgentRetention → Result RetentionError (Unit {0})
validate_agent r = do
  ensure (within (pos 0) (pos 3650) r.conn_days) bad_conn_days
  ensure (within (pos 0) (pos 3650) r.stale_agent_days) bad_stale_days

-- `GetAgentRetention` and `SetAgentRetention`.
unfoldable pub get_agent_retention :
    Result RetentionError (Option AgentRetention) → AgentRetention × Bool
unfolding validate_agent
get_agent_retention (err _) = (default_agent_retention, true)
get_agent_retention (ok none) = (default_agent_retention, false)
get_agent_retention (ok (some r)) = elim (validate_agent r) [
  | err _ ↦ (default_agent_retention, false)
  | ok _ ↦ (r, false)
]

unfoldable pub set_agent_retention :
    Bool
    → AgentRetention
    → Option AgentRetention
    → Option AgentRetention × Result RetentionError (Unit {0})
unfolding validate_agent
set_agent_retention fails r stored = elim (validate_agent r) [
  | err e ↦ (stored, err e)
  | ok _ ↦ if fails then (stored, err db_failed) else (some r, ok tt)
]
