-- ===== src/Suricata/Handlers.antt =====
-- The goroutines of the listener: `HandleLine` of several lines at once, beside the page that `Stats`
-- reads, as the atomic accesses of which they consist (backend/internal/suricata/suricata.go).
use pmacct_suricata_analyzer.Prelude.{
  ℕ, ◌+◌, ◌≡◌, Bool, true, false, not, ◌||◌, List, [], ◌∷◌, ◌++◌, String, Option, none, some, ok,
  err, ◌^^◌, str_eq, if◌then◌else◌,
}
use pmacct_suricata_analyzer.Rules.Types.{RuleError}
use pmacct_suricata_analyzer.Suricata.Types.{Event, Feed, Listener, Station}
use pmacct_suricata_analyzer.Suricata.Lines.{extract_json, opens_record}
use pmacct_suricata_analyzer.Suricata.Handle.{type_key, note, handle, mark_ignored}
use pmacct_suricata_analyzer.Suricata.Names.{Step}
use pmacct_suricata_analyzer.Suricata.Stats.{Stats, stats}

-- Where a run of `HandleLine` stands: what it does next.
pub data Stage : Type 0 where
  -- Read the line, and count it or its event.
  reading : String → Stage
  -- Count a line that is cut, for this reason.
  cut : String → Stage
  -- Note the event, which is counted as received.
  arrived : Event → String → Stage
  -- Handle the event, which is noted.
  noted : Event → String → Stage
  -- Count the event as dropped.
  lost : RuleError → Stage
  -- Keep the last error.
  telling : String → Stage

unfoldable pub read_line : Feed → String → Station → Station × Option Stage
read_line feed line st = elim (extract_json line) [
  | none ↦
      if opens_record line
      then (st, some (cut "truncated event (no closing brace)"))
      else (mark_ignored st, none)
  | some js ↦ elim (feed.decode js) [
    | err why ↦ (st, some (cut ("malformed/truncated event (" ^^ why ^^ ")")))
    | ok ev ↦ if str_eq ev.event_type "" then (st, none) else (
      record st { listener = record (st.listener) { received = st.listener.received + 1 } },
      some (arrived ev js),
    )
  ]
]

abbrev pub after_handle : Step → Station × Option Stage
after_handle (st, ok _) = (st, none)
after_handle (st, err e) = (st, some (lost e))

-- The next access of a run, and where the run stands after it; `none` is its return. What `handle`
-- does to the stored rows and to the engine is one access here.
unfoldable pub advance : Feed → ℕ → Stage → Station → Station × Option Stage
unfolding read_line note type_key handle
advance feed now (reading line) st = read_line feed line st
advance feed now (cut why) st = (
  record st { listener = record (st.listener) { malformed = st.listener.malformed + 1 } },
  some (telling why),
)
advance feed now (arrived ev js) st =
    (record st { listener = note (type_key ev) now st.listener }, some (noted ev js))
advance feed now (noted ev js) st = after_handle (handle feed now ev js st)
advance feed now (lost e) st = (
  record st { listener = record (st.listener) { dropped = st.listener.dropped + 1 } },
  some (telling (feed.error_text e)),
)
advance feed now (telling why) st =
    (record st { listener = record (st.listener) { last_err = why; last_err_at = some now } }, none)

-- The accesses that take the lock `mu`.
abbrev pub needs_lock : Stage → Bool
needs_lock (arrived ev js) = true
needs_lock (telling why) = true
needs_lock (reading line) = false
needs_lock (cut why) = false
needs_lock (noted ev js) = false
needs_lock (lost e) = false

-- Where `Stats` stands, which holds the lock from its first access to its last: the counter of
-- received events is loaded before that of dropped ones, and the table is read last.
pub data Page : Type 0 where
  closed locked : Page
  loaded : ℕ → Page
  counted : ℕ → ℕ → Page

abbrev pub is_closed : Page → Bool
is_closed closed = true
is_closed locked = false
is_closed (loaded r) = false
is_closed (counted r d) = false

-- What the page shows of the listener, with these two counters.
unfoldable pub page_of : ℕ → ℕ → Listener → Stats
unfolding stats
page_of r d l = record (stats l) { received = r; dropped = d }

pub record System : Type 0 where
  pub station : Station
  pub handlers : List Stage
  pub page : Page

abbrev pub still : Option Stage → List Stage
still none = []
still (some h) = h ∷ []

-- A line comes in, any run does its next access unless it waits for the lock, or the page does.
pub data Moves (feed : Feed) (s : System) : System → Type 0 where
  line_in : (line : String) → Moves feed s (record s { handlers = s.handlers ++ reading line ∷ [] })
  pick :
      (now : ℕ) (before others : List Stage) (h : Stage)
      → s.handlers ≡ before ++ h ∷ others
      → (not (needs_lock h) || is_closed s.page) ≡ true
      → Moves feed s (record s {
        station = (advance feed now h s.station).0;
        handlers = before ++ (still (advance feed now h s.station).1 ++ others);
      })
  lock_page : s.page ≡ closed → Moves feed s (record s { page = locked })
  load_received :
      s.page ≡ locked → Moves feed s (record s { page = loaded s.station.listener.received })
  load_dropped :
      {r : ℕ}
      → s.page ≡ loaded r
      → Moves feed s (record s { page = counted r s.station.listener.dropped })
  show_page : {r d : ℕ} → s.page ≡ counted r d → Moves feed s (record s { page = closed })

pub data Runs (feed : Feed) (s : System) : System → Type 0 where
  here : Runs feed s s
  later : {t u : System} → Runs feed s t → Moves feed t u → Runs feed s u
