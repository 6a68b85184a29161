-- ===== src/Suricata/Tests.antt =====
-- Runs of the ingestion of events (backend/internal/suricata/suricata.go).
use pmacct_suricata_analyzer.Prelude.{
  ℕ, ◌+◌, ◌≡◌, refl, arith, true, false, List, [], ◌∷◌, ◌++◌, String, none, some, Result, ok, err,
  str_eq, ◌^^◌, if◌then◌else◌, length, count_where, trim_space,
}
use pmacct_suricata_analyzer.Prelude.Int.{pos}
use pmacct_suricata_analyzer.Rules.Sample.{env, start}
use pmacct_suricata_analyzer.Suricata.Types.{Event, Feed, Listener, Station}
use pmacct_suricata_analyzer.Suricata.Lines.{index, last_index, extract_json, opens_record}
use pmacct_suricata_analyzer.Suricata.Names.{handle_dns, add_all, last_name}
use pmacct_suricata_analyzer.Rules.Engine.{raise_ids}
use pmacct_suricata_analyzer.Rules.Types.{builtin_rule}
use pmacct_suricata_analyzer.Suricata.Handle.{used_for, type_key, handle, handle_line, handle_lines}
use pmacct_suricata_analyzer.Suricata.Used.{Raises, used_for-handle}
use pmacct_suricata_analyzer.Suricata.Extract.{object, extract_json-object}
use pmacct_suricata_analyzer.Suricata.Handlers.{
  reading, advance, read_line, closed, counted, page_of, System, still, Runs, here, later, line_in,
  pick, lock_page, load_received, load_dropped,
}
use pmacct_suricata_analyzer.Suricata.Overlap.{AddsUp, pages-add_up}
use pmacct_suricata_analyzer.Suricata.Ledger.{IsTallied, is_silent, lines_of, handle_lines-accounts}

abbrev blank : Event
blank = record {
  timestamp = "now";
  event_type = "";
  src_ip = "10.0.0.5";
  src_port = pos 4000;
  dest_ip = "8.8.8.8";
  dest_port = pos 53;
  proto = "UDP";
  app_proto = "dns";
  alert = none;
  dns = none;
  tls = none;
  http = none;
}

abbrev answer : Event
answer = record blank {
  event_type = "dns";
  dns = some (record {
    kind = "answer";
    rr_name = "example.org.";
    rr_type = "A";
    r_data = "1.2.3.4";
    answers = record { rr_name = "cdn.example.org"; rr_type = "A"; r_data = "1.2.3.5" } ∷ [];
    grouped = ("A", "1.2.3.6" ∷ []) ∷ [];
  });
}

abbrev attack : Event
attack = record blank {
  event_type = "alert";
  alert = some (record {
    action = "allowed";
    signature_id = pos 2001219;
    signature = "ET SCAN";
    category = "Attempted";
    severity = pos 2;
  });
}

abbrev decode_word : String → Result String Event
decode_word js =
    if str_eq js "{dns}"
    then ok answer
    else if str_eq js "{alert}"
    then ok attack
    else if str_eq js "{}"
    then ok blank
    else err "unexpected"

abbrev pub feed : Feed
feed = record {
  env = env;
  decode = decode_word;
  parse_time = λ layout s. none;
  error_text = λ e. "failed";
  byte_length = λ s. 10;
  is_local = none;
  has_sink = true;
  event_write_fails = λ e. false;
  name_write_fails = λ a n. str_eq a "1.2.3.4";
}

abbrev quiet : Listener
quiet = record {
  received = 0;
  alerts = 0;
  names = 0;
  dropped = 0;
  malformed = 0;
  ignored = 0;
  last_at = none;
  last_err = "";
  last_err_at = none;
  types = [];
}

abbrev pub station : Station
station = record { listener = quiet; events = []; next_event = 1; names = []; sys = start }

abbrev morning : List (ℕ × String)
morning =
    (1, "<13>sensor: {alert}")
    ∷ (2, "<13>sensor: {dns}")
    ∷ (3, "<13>sensor: {}")
    ∷ (4, "<13>sensor: {\"event")
    ∷ (5, "<13>sensor: {cut}")
    ∷ (6, "<13>dhcpd: lease")
    ∷ []

-- An alert that the engine has no rule for, an answer whose last address cannot be stored, a silent
-- event, two lines that are malformed, and one of another program.
dropped_test : (handle_lines feed morning station).listener.dropped ≡ 2
unfolding handle_lines handle_line extract_json opens_record trim_space handle_dns add_all last_name
    raise_ids builtin_rule
dropped_test = refl

malformed_test : (handle_lines feed morning station).listener.malformed ≡ 2
unfolding handle_lines handle_line extract_json opens_record trim_space handle_dns add_all last_name
    raise_ids builtin_rule
malformed_test = refl

names_test : length (handle_lines feed morning station).names ≡ 2
unfolding handle_lines handle_line extract_json opens_record trim_space handle_dns add_all last_name
    raise_ids builtin_rule
names_test = refl

quiet-IsTallied : IsTallied quiet
quiet-IsTallied = record { counted = refl; room = omega arith; few_dropped = omega arith }

abbrev at_rest : System
at_rest = record { station = station; handlers = []; page = closed }

-- A page is read while the event of a line is counted and not yet noted.
abbrev overlapped : System
overlapped = record {
  station = (advance feed 1 (reading "<13>sensor: {alert}") station).0;
  handlers = still (advance feed 1 (reading "<13>sensor: {alert}") station).1 ++ [];
  page = counted 1 0;
}

overlapping : Runs feed at_rest overlapped
unfolding advance read_line extract_json
overlapping =
    later
      (later
        (later
          (later (later here (line_in "<13>sensor: {alert}"))
            (pick 1 [] [] (reading "<13>sensor: {alert}") refl refl))
          (lock_page refl))
        (load_received refl))
      (load_dropped refl)

pages-add_up_example : AddsUp 1 (page_of 1 0 overlapped.station.listener)
unfolding advance read_line extract_json
pages-add_up_example =
    pages-add_up feed {s = at_rest} {t = overlapped} quiet-IsTallied refl refl overlapping 1 0 refl

handle_lines-accounts_example :
    lines_of (handle_lines feed morning station).listener
      + count_where (λ (l : ℕ × String). is_silent feed l.1) morning
    ≡ 6
handle_lines-accounts_example = handle_lines-accounts feed morning station

used_for-handle_example :
    (used_for (type_key answer) ≡ "" → handle feed 2 answer "{dns}" station ≡ (station, ok tt))
    × (used_for (type_key answer) ≡ "names"
        → Raises station (handle feed 2 answer "{dns}" station).0)
    × (used_for (type_key answer) ≡ "alerts" → (handle feed 2 answer "{dns}" station).0.names ≡ [])
used_for-handle_example = used_for-handle feed 2 answer "{dns}" station

extract_json-object_example :
    extract_json ("<13>sensor: " ^^ object "\"dns\":{}" ^^ "\n") ≡ some "{\"dns\":{}}"
unfolding index last_index
extract_json-object_example = extract_json-object "<13>sensor: " "\"dns\":{}" "\n" refl refl
