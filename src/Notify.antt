-- ===== src/Notify.antt =====
-- The dispatcher of notifications (backend/internal/notify/notify.go): the severity filter, the
-- queue, quiet hours and delivery. A message is taken by its severity and its alerts; its text,
-- which is made of them, is left out.
pub mod Quiet
pub mod Delivery
mod Tests
use pmacct_suricata_analyzer.Prelude.{
  ℕ, suc, ◌+◌, Bool, true, false, not, ◌&&◌, ◌||◌, List, [], ◌∷◌, ◌++◌, String, Option, none, some,
  Result, ok, err, if◌then◌else◌, ltb, leb, ◌==◌, str_eq, ◌^^◌, trim_space, keep,
}
use pmacct_suricata_analyzer.Prelude.Int.{ℤ, pos, eqb_ℤ}
use pmacct_suricata_analyzer.Alerts.{mark_notified}
use pmacct_suricata_analyzer.Alerts.Rows.{Alert, Table, severity_rank}
use pmacct_suricata_analyzer.Exclusions.{is_nil}
use Quiet.{in_quiet_hours}

pub record Message : Type 0 where
  pub severity : String
  pub alerts : List Alert

-- A channel: `send` gives the error, if there is one.
pub record Channel : Type 0 where
  pub name : String
  pub send : Message → Option String

pub record Dispatcher : Type 0 where
  pub pending : List Alert
  pub sent : ℕ
  pub failed : ℕ
  pub last : ℕ
  pub last_err : String
  pub min_severity : String

-- The configuration, the channels, and what is called outside the package: `hour` is the local hour
-- of a time, `to_lower` is `strings.ToLower`, `stored` the setting that the database holds, and the
-- `…_fails` say which statements fail.
pub record Setup : Type 0 where
  pub channels : List Channel
  pub notify_min_severity : String
  pub notify_digest : ℤ
  pub notify_quiet_hours : String
  pub hour : ℕ → ℕ
  pub to_lower : String → String
  pub has_db : Bool
  pub stored : Result String (Option String)
  pub setting_fails : Bool
  pub mark_fails : Bool

-- `MinSeverity`.
unfoldable pub min_severity : Setup → Dispatcher → String
min_severity env d = if str_eq d.min_severity "" then env.notify_min_severity else d.min_severity

pub data NotifyError : Type 0 where
  bad_severity : String → NotifyError
  db_failed : NotifyError

-- `SetMinSeverity`.
unfoldable pub set_min_severity :
    Setup → String → Dispatcher → Dispatcher × Result NotifyError (Unit {0})
set_min_severity env severity d =
    let s = env.to_lower (trim_space severity) in
    if severity_rank s == 0 then (d, err (bad_severity s)) else (
      record d { min_severity = s },
      if env.has_db && env.setting_fails then err db_failed else ok tt,
    )

-- `loadSettings`.
abbrev load_stored : Result String (Option String) → Dispatcher → Dispatcher
load_stored (err _) d = d
load_stored (ok none) d = d
load_stored (ok (some s)) d = if ltb 0 (severity_rank s) then record d { min_severity = s } else d

unfoldable pub load_settings : Setup → Dispatcher → Dispatcher
load_settings env d = if not env.has_db then d else load_stored env.stored d

-- The highest severity of a batch, at least info.
unfoldable pub top_severity : String → List Alert → String
top_severity top [] = top
top_severity top (a ∷ alerts) =
    top_severity (if ltb (severity_rank top) (severity_rank a.severity) then a.severity else top)
      alerts

unfoldable pub render : List Alert → Message
unfolding top_severity
render alerts = record { severity = top_severity "info" alerts; alerts = alerts }

abbrev pub ids : List Alert → List ℕ
ids [] = []
ids (a ∷ alerts) = a.id ∷ ids alerts

abbrev pub note_failure : String → String → Dispatcher → Dispatcher
note_failure name e d = record d { failed = suc d.failed; last_err = name ^^ (": " ^^ e) }

-- The loop over the channels: whether one of them took the message.
unfoldable pub send_all : Message → List Channel → Dispatcher → Bool × Dispatcher
send_all m [] d = (false, d)
send_all m (c ∷ cs) d = elim (c.send m) [
  | some e ↦ send_all m cs (note_failure c.name e d)
  | none ↦ (true, (send_all m cs d).1)
]

abbrev delivered : Setup → ℕ → List Alert → Bool × Dispatcher → Table → Dispatcher × Table
delivered env now batch (took, d) t =
    if took
    then (
      record d { sent = suc d.sent; last = now },
      if env.has_db && not env.mark_fails then mark_notified now (ids batch) t else t,
    )
    else (d, t)

-- `Flush`.
unfoldable pub flush : Setup → ℕ → Dispatcher → Table → Dispatcher × Table
unfolding send_all render
flush env now d t =
    if is_nil d.pending || in_quiet_hours env.notify_quiet_hours (env.hour now)
    then (d, t)
    else delivered env now d.pending
        (send_all (render d.pending) env.channels (record d { pending = [] })) t

-- An alert that passes the severity filter.
abbrev pub passes : Setup → Dispatcher → Alert → Bool
passes env d a = leb (severity_rank (min_severity env d)) (severity_rank a.severity)

abbrev pub queued : Setup → Dispatcher → List Alert → Dispatcher
queued env d alerts = record d { pending = d.pending ++ keep (passes env d) alerts }

-- `Notify`.
unfoldable pub notify : Setup → ℕ → List Alert → Dispatcher → Table → Dispatcher × Table
unfolding flush min_severity
notify env now alerts d t =
    if is_nil env.channels || is_nil (keep (passes env d) alerts)
    then (d, t)
    else if eqb_ℤ env.notify_digest (pos 0)
        && not (in_quiet_hours env.notify_quiet_hours (env.hour now))
    then flush env now (queued env d alerts) t
    else (queued env d alerts, t)
