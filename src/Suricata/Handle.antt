-- ===== src/Suricata/Handle.antt =====
-- Handling a line: classification, counters, storage and the finding (backend/internal/suricata/
-- suricata.go, `typeKey`, `usedFor`, `note`, `handle`, `finding` and `HandleLine`).
use pmacct_suricata_analyzer.Prelude.{
  ℕ, ◌+◌, Bool, false, not, ◌&&◌, ◌||◌, List, [], ◌∷◌, ◌++◌, String, Option, none, some, ok, err,
  str_eq, ◌^^◌, leb, get, put, length, if◌then◌else◌,
}
use pmacct_suricata_analyzer.Prelude.Int.{ℤ, pos, eqb_ℤ}
use pmacct_suricata_analyzer.Prelude.Search.{decimal_ℤ}
use pmacct_suricata_analyzer.Values.{int, int64, text}
use pmacct_suricata_analyzer.Alerts.{failed}
use pmacct_suricata_analyzer.Alerts.Rows.{Finding}
use pmacct_suricata_analyzer.Rules.Types.{db_error}
use pmacct_suricata_analyzer.Rules.Engine.{raise_ids}
use pmacct_suricata_analyzer.Suricata.Types.{
  Event, EveAlert, Dns, TypeStat, Feed, Listener, IdsEvent, Station,
}
use pmacct_suricata_analyzer.Suricata.Lines.{extract_json, opens_record}
use pmacct_suricata_analyzer.Suricata.Names.{Step, is_answer, learn, handle_dns}

-- `usedFor`.
unfoldable pub used_for : String → String
used_for t =
    if str_eq t "alert"
    then "alerts"
    else if str_eq t "dns.answer" || (str_eq t "tls" || str_eq t "http")
    then "names"
    else ""

abbrev pub answers : Option Dns → Bool
answers none = false
answers (some d) = is_answer d

-- `typeKey`.
unfoldable pub type_key : Event → String
type_key ev =
    if str_eq ev.event_type "dns"
    then if answers ev.dns then "dns.answer" else "dns.query"
    else ev.event_type

-- `maxTypes`.
abbrev pub max_types : ℕ
max_types = 24

abbrev pub first_of_type : ℕ → TypeStat
first_of_type at = record { count = 1; last = at }

abbrev pub one_more : ℕ → TypeStat → TypeStat
one_more at ts = record { count = ts.count + 1; last = at }

abbrev pub stat_after : ℕ → Option TypeStat → TypeStat
stat_after at none = first_of_type at
stat_after at (some ts) = one_more at ts

-- A type that is new while the table is full counts as "other".
unfoldable pub note_type : String → ℕ → List (String × TypeStat) → List (String × TypeStat)
note_type key at types = elim (get key types) [
  | some ts ↦ put key (one_more at ts) types
  | none ↦
      if leb max_types (length types)
      then put "other" (stat_after at (get "other" types)) types
      else put key (first_of_type at) types
]

-- `note`.
unfoldable pub note : String → ℕ → Listener → Listener
unfolding note_type
note key at l = record l { last_at = some at; types = note_type key at l.types }

-- The layouts of `parseTS`, in order.
unfoldable pub parse_ts : Feed → String → ℕ → ℕ
parse_ts feed s now = elim (feed.parse_time "2006-01-02T15:04:05.999999-0700" s) [
  | some t ↦ t
  | none ↦ elim (feed.parse_time "2006-01-02T15:04:05.999999999Z07:00" s) [
    | some t ↦ t
    | none ↦ elim (feed.parse_time "2006-01-02T15:04:05.999999Z07:00" s) [ some t ↦ t | none ↦ now ]
  ]
]

abbrev pub unless_blank {ℓ} : {A : Type ℓ} → String → A → Option A
unless_blank s a = if str_eq s "" then none else some a

unfoldable pub ids_event : Feed → ℕ → Event → EveAlert → String → ℕ → IdsEvent
unfolding parse_ts
ids_event feed now ev a raw id = record {
  id = id;
  ts = parse_ts feed ev.timestamp now;
  src_ip = unless_blank ev.src_ip ev.src_ip;
  src_port = unless_blank ev.src_ip ev.src_port;
  dst_ip = unless_blank ev.dest_ip ev.dest_ip;
  dst_port = unless_blank ev.dest_ip ev.dest_port;
  proto = unless_blank ev.proto (feed.env.net.to_lower ev.proto);
  sid = a.signature_id;
  signature = a.signature;
  category = a.category;
  severity = a.severity;
  action = a.action;
  app_proto = unless_blank ev.app_proto ev.app_proto;
  raw = raw;
}

-- The severity of a finding: 1 is high.
unfoldable pub finding_severity : ℤ → String
finding_severity n =
    if eqb_ℤ n (pos 1) then "critical" else if eqb_ℤ n (pos 2) then "warning" else "info"

-- An attack from outside on a local host is told of the local host.
unfoldable pub is_inbound : Feed → String → String → Bool
is_inbound feed src dst = elim feed.is_local [
  | none ↦ false
  | some local ↦ elim (feed.env.net.parse_addr src) [
    | none ↦ false
    | some s ↦ elim (feed.env.net.parse_addr dst) [
      | none ↦ false
      | some d ↦ not (local s) && local d
    ]
  ]
]

-- `finding`.
unfoldable pub finding : Feed → Event → EveAlert → Finding
unfolding finding_severity is_inbound
finding feed ev a = record {
  rule = "ids";
  severity = finding_severity a.severity;
  host = if is_inbound feed ev.src_ip ev.dest_ip then ev.dest_ip else ev.src_ip;
  peer = if is_inbound feed ev.src_ip ev.dest_ip then ev.src_ip else ev.dest_ip;
  port = 0;
  title =
      a.signature
      ^^ " ("
      ^^ ev.src_ip
      ^^ " → "
      ^^ ev.dest_ip
      ^^ ":"
      ^^ decimal_ℤ ev.dest_port
      ^^ ")";
  details =
      ("sid", int64 a.signature_id)
      ∷ ("category", text a.category)
      ∷ ("suricata_severity", int a.severity)
      ∷ ("action", text a.action)
      ∷ ("src", text ev.src_ip)
      ∷ ("src_port", int ev.src_port)
      ∷ ("dst", text ev.dest_ip)
      ∷ ("dst_port", int ev.dest_port)
      ∷ ("proto", text ev.proto)
      ∷ ("app_proto", text ev.app_proto)
      ∷ [];
  key = decimal_ℤ a.signature_id;
}

-- `InsertIDSEvent` and the counter of alerts; the sequence moves on also where the statement fails.
unfoldable pub insert_event : Feed → (ℕ → IdsEvent) → Station → Station × Option ℕ
insert_event feed event st =
    let id = st.next_event in
    let moved = record st { next_event = id + 1 } in
    if feed.event_write_fails (event id) then (moved, none) else (
      record moved {
        events = st.events ++ event id ∷ [];
        listener = record (st.listener) { alerts = st.listener.alerts + 1 };
      },
      some id,
    )

-- The finding goes to the engine, with the id of the stored event.
unfoldable pub raise_stored : Feed → ℕ → Event → EveAlert → ℕ → Station → Step
unfolding finding
raise_stored feed now ev a id st =
    if not feed.has_sink
    then (st, ok tt)
    else let f = finding feed ev a in
      let (sys, res) =
        raise_ids feed.env now
          (record f { details = put "ids_event_id" (int64 (pos id)) f.details }) st.sys in
      (record st { sys = sys }, res)

abbrev pub stored_then : Feed → ℕ → Event → EveAlert → Station × Option ℕ → Step
stored_then feed now ev a (st, none) = (st, err (db_error failed))
stored_then feed now ev a (st, some id) = raise_stored feed now ev a id st

unfoldable pub handle_alert : Feed → ℕ → Event → EveAlert → String → Station → Step
unfolding ids_event insert_event raise_stored
handle_alert feed now ev a raw st =
    stored_then feed now ev a (insert_event feed (ids_event feed now ev a raw) st)

abbrev pub learn_named : Feed → ℕ → Event → String → String → Station → Step
learn_named feed now ev name source st =
    if str_eq name "" || str_eq ev.dest_ip ""
    then (st, ok tt)
    else learn feed now ev.dest_ip name source st

abbrev pub handle_http : Feed → ℕ → Event → String → Station → Step
handle_http feed now ev name st = elim (feed.env.net.parse_addr name) [
  | some _ ↦ (st, ok tt)
  | none ↦ learn_named feed now ev name "http" st
]

-- A part of the event that is missing is passed over.
abbrev pub with_part {ℓ} : {A : Type ℓ} → Option A → (A → Station → Step) → Station → Step
with_part none f st = (st, ok tt)
with_part (some a) f st = f a st

-- `handle`.
unfoldable pub handle : Feed → ℕ → Event → String → Station → Step
unfolding handle_alert
handle feed now ev raw st =
    if str_eq ev.event_type "alert"
    then with_part ev.alert (λ a. handle_alert feed now ev a raw) st
    else if str_eq ev.event_type "dns"
    then with_part ev.dns (handle_dns feed now) st
    else if str_eq ev.event_type "tls"
    then with_part ev.tls (λ sni. learn_named feed now ev sni "tls") st
    else if str_eq ev.event_type "http"
    then with_part ev.http (handle_http feed now ev) st
    else (st, ok tt)

-- `markMalformed`.
unfoldable pub mark_malformed : String → ℕ → Station → Station
mark_malformed msg now st = record st {
  listener = record (st.listener) {
    malformed = st.listener.malformed + 1;
    last_err = msg;
    last_err_at = some now;
  };
}

abbrev pub mark_ignored : Station → Station
mark_ignored st = record st {
  listener = record (st.listener) { ignored = st.listener.ignored + 1 };
}

-- What is left of an event that is handled: an error is counted and kept.
unfoldable pub settle : Feed → ℕ → Step → Station
settle feed now (st, ok _) = st
settle feed now (st, err e) = record st {
  listener = record (st.listener) {
    dropped = st.listener.dropped + 1;
    last_err = feed.error_text e;
    last_err_at = some now;
  };
}

-- The counter and the table of types, before an event is handled.
unfoldable pub receive : ℕ → Event → Listener → Listener
unfolding note type_key
receive now ev l = note (type_key ev) now (record l { received = l.received + 1 })

unfoldable pub take_event : Feed → ℕ → Event → String → Station → Station
unfolding handle settle receive
take_event feed now ev raw st =
    if str_eq ev.event_type ""
    then st
    else settle feed now
        (handle feed now ev raw (record st { listener = receive now ev st.listener }))

-- `HandleLine`, run alone: `Handlers` has the accesses of runs that overlap.
unfoldable pub handle_line : Feed → ℕ → String → Station → Station
unfolding take_event mark_malformed
handle_line feed now line st = elim (extract_json line) [
  | none ↦
      if opens_record line
      then mark_malformed "truncated event (no closing brace)" now st
      else mark_ignored st
  | some js ↦ elim (feed.decode js) [
    | err why ↦ mark_malformed ("malformed/truncated event (" ^^ why ^^ ")") now st
    | ok ev ↦ take_event feed now ev js st
  ]
]

-- The loops of `Run`: the lines, each with the time at which it is handled.
unfoldable pub handle_lines : Feed → List (ℕ × String) → Station → Station
handle_lines feed [] st = st
handle_lines feed ((now, line) ∷ lines) st = handle_lines feed lines (handle_line feed now line st)
