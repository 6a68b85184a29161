-- ===== src/Alerts.antt =====
-- The alerts table (backend/internal/db/alerts.go): findings, alerts and each statement on the
-- table. The table is the list of its rows; `now` is the time of the statement, in nanoseconds.
pub mod Rows
pub mod Unique
pub mod Statements
pub mod Lifecycle
pub mod Severity
mod Tests
use pmacct_suricata_analyzer.Prelude.{
  ℕ, suc, ◌+◌, Bool, true, false, not, ◌&&◌, ◌||◌, List, [], ◌∷◌, ◌++◌, String, Option, none, some,
  Result, ok, err, ◌>>=◌, ◌>>◌, if◌then◌else◌, ltb, leb, ◌==◌, max, str_eq, join, decimal, any,
  keep, drop_where, update_where, count_where, find,
}
use pmacct_suricata_analyzer.Prelude.Int.{ℤ, back}
use pmacct_suricata_analyzer.Values.{Params}
use Rows.{Finding, Alert, AlertState, opened, acked, resolved, Table, dedupe_key, is_live, escalate}

-- What a statement can fail with.
pub data DbError : Type 0 where
  invalid_inet failed : DbError
  invalid_state : String → DbError

-- `$n::inet` of a text: the server's parser, given as `inet`, gives the canonical text.
module _ (inet : String → Option String) where
  unfoldable pub inet_of : String → Result DbError String
  inet_of s = elim (inet s) [ none ↦ err invalid_inet | some c ↦ ok c ]

  -- A nil pointer is NULL, which needs no cast.
  unfoldable pub nullable_inet : String → Result DbError (Option String)
  unfolding inet_of
  nullable_inet s = if str_eq s "" then ok none else (inet_of s >>= λ c. ok (some c))

abbrev pub matches : String → Alert → Bool
matches key a = is_live a && str_eq a.dedupe_key key

abbrev pub has_id : ℕ → Alert → Bool
has_id id a = a.id == id

-- The row that a conflicting insert leaves.
unfoldable pub bump : ℕ → Finding → Alert → Alert
bump now f a = record a {
  count = suc a.count;
  last_seen = now;
  title = f.title;
  details = f.details;
  severity = escalate f.severity a.severity;
}

-- The row that an insert makes.
unfoldable pub new_alert : ℕ → ℕ → Finding → Option String → Option String → Alert
new_alert id now f host peer = record {
  id = id;
  rule = f.rule;
  severity = f.severity;
  host = host;
  peer = peer;
  port = if ltb 0 f.port then some f.port else none;
  title = f.title;
  details = f.details;
  count = 1;
  first_seen = now;
  last_seen = now;
  state = opened;
  acked_at = none;
  resolved_at = none;
  notified_at = none;
  reopened_at = none;
  dedupe_key = dedupe_key f;
}

-- What `UpsertAlert` returns: the row, whether it is new, and the table after the statement.
pub record Upserted : Type 0 where
  pub alert : Alert
  pub inserted : Bool
  pub table : Table

unfoldable pub insert_or_bump : ℕ → Finding → Option String → Option String → Table → Upserted
insert_or_bump now f host peer t = elim (find (matches (dedupe_key f)) t.rows) [
  | some a ↦ record {
    alert = bump now f a;
    inserted = false;
    table = record t { rows = update_where (matches (dedupe_key f)) (bump now f) t.rows };
  }
  | none ↦ record {
    alert = new_alert t.next_id now f host peer;
    inserted = true;
    table = record {
      rows = t.rows ++ new_alert t.next_id now f host peer ∷ [];
      next_id = suc t.next_id;
    };
  }
]

unfoldable pub upsert_alert :
    (String → Option String) → ℕ → Finding → Table → Result DbError Upserted
unfolding insert_or_bump nullable_inet
upsert_alert inet now f t = do
  host ← nullable_inet inet f.host
  peer ← nullable_inet inet f.peer
  ok (insert_or_bump now f host peer t)

abbrev pub ack : ℕ → Alert → Alert
ack now a = record a { state = acked; acked_at = some now }

abbrev pub resolve : ℕ → Alert → Alert
resolve now a = record a { state = resolved; resolved_at = some now }

abbrev pub unack : Alert → Alert
unack a = record a { state = opened; acked_at = none }

abbrev pub reopened : ℕ → Alert → Alert
reopened now a = record a {
  state = opened;
  acked_at = none;
  resolved_at = none;
  reopened_at = some now;
}

abbrev pub is_acked : AlertState → Bool
is_acked acked = true
is_acked _ = false

-- An `UPDATE` and whether it affected a row.
abbrev update_rows : (Alert → Bool) → (Alert → Alert) → Table → Bool × Table
update_rows p f t = (ltb 0 (count_where p t.rows), record t { rows = update_where p f t.rows })

unfoldable pub set_alert_state : ℕ → ℕ → String → Table → Result DbError (Bool × Table)
set_alert_state now id state t =
    if str_eq state "acked"
    then ok (update_rows (λ a. has_id id a && is_live a) (ack now) t)
    else if str_eq state "resolved"
    then ok (update_rows (λ a. has_id id a && is_live a) (resolve now) t)
    else if str_eq state "open"
    then ok (update_rows (λ a. has_id id a && is_acked a.state) unack t)
    else err (invalid_state state)

-- Another live alert with the same key.
abbrev pub rival : Alert → Alert → Bool
rival a b = str_eq b.dedupe_key a.dedupe_key && not (b.id == a.id) && is_live b

abbrev pub can_reopen : ℕ → List Alert → Alert → Bool
can_reopen id rows a = has_id id a && not (is_live a) && not (any (rival a) rows)

-- `ORDER BY b.id DESC LIMIT 1`, 0 for no row.
abbrev last_id : List Alert → ℕ
last_id [] = 0
last_id (a ∷ rows) = max a.id (last_id rows)

abbrev rivals : List Alert → List Alert → List Alert
rivals [] rows = []
rivals (a ∷ more) rows = keep (rival a) rows ++ rivals more rows

-- `ReopenAlert`: whether it was reopened, and the live alert that stands in the way.
unfoldable pub reopen_alert : ℕ → ℕ → Table → Bool × ℕ × Table
reopen_alert now id t =
    if ltb 0 (count_where (can_reopen id t.rows) t.rows)
    then (true, 0, record t { rows = update_where (can_reopen id t.rows) (reopened now) t.rows })
    else (false, last_id (rivals (keep (has_id id) t.rows) t.rows), t)

-- `rule = $n`, for a filter that is not empty.
abbrev pub rule_filter : String → Alert → Bool
rule_filter rule a = str_eq rule "" || str_eq a.rule rule

abbrev address_is : String → Option String → Bool
address_is ip none = false
address_is ip (some c) = str_eq c ip

abbrev pub host_filter : Option String → Alert → Bool
host_filter none a = true
host_filter (some ip) a = address_is ip a.host || address_is ip a.peer

unfoldable pub resolve_alerts :
    (String → Option String) → ℕ → String → String → Table → Result DbError (ℕ × Table)
unfolding nullable_inet
resolve_alerts inet now rule host t = do
  ip ← nullable_inet inet host
  let p = λ (a : Alert). is_live a && rule_filter rule a && host_filter ip a
  ok (count_where p t.rows, record t { rows = update_where p (resolve now) t.rows })

abbrev pub severity_filter : String → Alert → Bool
severity_filter severity a = str_eq severity "" || str_eq a.severity severity

abbrev delete_rows : (Alert → Bool) → Table → ℕ × Table
delete_rows p t = (count_where p t.rows, record t { rows = drop_where p t.rows })

unfoldable pub delete_resolved_alerts :
    (String → Option String) → String → String → String → Table → Result DbError (ℕ × Table)
unfolding nullable_inet
delete_resolved_alerts inet rule host severity t = do
  ip ← nullable_inet inet host
  ok (
      delete_rows
        (λ a.
          not (is_live a) && rule_filter rule a && host_filter ip a && severity_filter severity a)
        t)

-- `DeleteAlert`: whether it was deleted, and whether it was there.
unfoldable pub delete_alert : ℕ → Table → Bool × Bool × Table
delete_alert id t =
    let p = λ (a : Alert). has_id id a && not (is_live a) in
    if ltb 0 (count_where p t.rows)
    then (true, true, record t { rows = drop_where p t.rows })
    else (false, any (has_id id) t.rows, t)

abbrev later_of : ℕ → Option ℕ → ℕ
later_of t none = t
later_of t (some u) = max t u

abbrev pub is_stale : ℕ → ℤ → Alert → Bool
is_stale now after a = is_live a && ltb (later_of a.last_seen a.reopened_at) (back now after)

unfoldable pub auto_resolve_stale : ℕ → ℤ → Table → ℕ × Table
auto_resolve_stale now after t = (
  count_where (is_stale now after) t.rows,
  record t { rows = update_where (is_stale now after) (resolve now) t.rows },
)

abbrev pub listed : List ℕ → Alert → Bool
listed ids a = any (λ i. i == a.id) ids

unfoldable pub mark_notified : ℕ → List ℕ → Table → Table
mark_notified now ids t = record t {
  rows = update_where (listed ids) (λ a. record a { notified_at = some now }) t.rows;
}
