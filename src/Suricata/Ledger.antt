-- ===== src/Suricata/Ledger.antt =====
-- The counters of the listener account for every line (backend/internal/suricata/suricata.go,
-- `HandleLine`).
use pmacct_suricata_analyzer.Prelude.{
  ℕ, ◌+◌, ◌≤◌, ◌≡◌, refl, ◌∙◌, Bool, true, false, List, [], ◌∷◌, String, none, some, ok, err, arith,
  Option-cases, Result-cases, Bool-cases, inl, inr, str_eq, length, count_where, if◌then◌else◌,
}
use pmacct_suricata_analyzer.Suricata.Types.{Event, Feed, Listener, Station}
use pmacct_suricata_analyzer.Suricata.Lines.{extract_json, opens_record}
use pmacct_suricata_analyzer.Suricata.Names.{Step}
use pmacct_suricata_analyzer.Suricata.Handle.{
  type_key, receive, settle, take_event, mark_malformed, mark_ignored, handle_line, handle_lines,
  handle,
}
use pmacct_suricata_analyzer.Suricata.Table.{total, HasRoom, total-note_type, note_type-HasRoom}
use pmacct_suricata_analyzer.Suricata.Keeps.{Keeps, handle-Keeps}

-- The types count the events that were received, there are at most 25 of them, and no more events
-- were dropped than received.
pub record IsTallied (l : Listener) : Type 0 where
  pub counted : total l.types ≡ l.received
  pub room : HasRoom l.types
  pub few_dropped : l.dropped ≤ l.received

-- What the handling of an event of a type does to the counters.
record Took (st u : Station) : Type 0 where
  received : u.listener.received ≡ st.listener.received + 1
  malformed : u.listener.malformed ≡ st.listener.malformed
  ignored : u.listener.ignored ≡ st.listener.ignored
  dropped : u.listener.dropped ≤ st.listener.dropped + 1
  counted : total u.listener.types ≡ total st.listener.types + 1
  room : HasRoom st.listener.types → HasRoom u.listener.types

receive-Took :
    (now : ℕ) (ev : Event) (st : Station)
    → Took st (record st { listener = receive now ev st.listener })
unfolding receive
receive-Took now ev st = record {
  received = refl;
  malformed = refl;
  ignored = refl;
  dropped = omega arith;
  counted = total-note_type (type_key ev) now st.listener.types;
  room = note_type-HasRoom (type_key ev) now st.listener.types;
}

settle-Took :
    (feed : Feed) (now : ℕ) (st t : Station) (p : Step)
    → Took st t
    → t.listener.dropped ≡ st.listener.dropped
    → Keeps t p.0
    → Took st (settle feed now p)
unfolding settle
settle-Took feed now st t (u, ok _) h d k = record {
  received = k.received ∙ h.received;
  malformed = k.malformed ∙ h.malformed;
  ignored = k.ignored ∙ h.ignored;
  dropped = omega (arith, k.dropped, h.dropped);
  counted = rw k.types h.counted;
  room = λ r. rw k.types (h.room r);
}
settle-Took feed now st t (u, err e) h d k = record {
  received = k.received ∙ h.received;
  malformed = k.malformed ∙ h.malformed;
  ignored = k.ignored ∙ h.ignored;
  dropped = omega (arith, k.dropped, d);
  counted = rw k.types h.counted;
  room = λ r. rw k.types (h.room r);
}

take_event-Took :
    (feed : Feed) (now : ℕ) (ev : Event) (raw : String) (st : Station)
    → str_eq ev.event_type "" ≡ false
    → Took st (take_event feed now ev raw st)
unfolding take_event
take_event-Took feed now ev raw st e =
    let t : Station = record st { listener = receive now ev st.listener } in
    rw e (
      settle-Took feed now st t (handle feed now ev raw t) (receive-Took now ev st) (kept st)
        (handle-Keeps feed now ev raw t))
  where
    kept : (s : Station) → (receive now ev s.listener).dropped ≡ s.listener.dropped
    kept s = unfold receive in refl

-- A line whose event names no type: it is passed over without a trace.
pub is_silent : Feed → String → Bool
is_silent feed line = elim (extract_json line) [
  | none ↦ false
  | some js ↦ elim (feed.decode js) [ err _ ↦ false | ok ev ↦ str_eq ev.event_type "" ]
]

abbrev pub lines_of : Listener → ℕ
lines_of l = l.received + l.malformed + l.ignored

-- One line, in the books.
record Books (feed : Feed) (line : String) (st u : Station) : Type 0 where
  tallied : IsTallied st.listener → IsTallied u.listener
  accounted :
      lines_of u.listener + (if is_silent feed line then 1 else 0) ≡ lines_of st.listener + 1

Took-Books :
    (feed : Feed) (line : String) (st u : Station)
    → is_silent feed line ≡ false
    → Took st u
    → Books feed line st u
Took-Books feed line st u e h = record {
  tallied = λ t. record {
    counted = omega (arith, t.counted, h.counted, h.received);
    room = h.room t.room;
    few_dropped = omega (arith, t.few_dropped, h.dropped, h.received);
  };
  accounted = rw e (omega (arith, h.received, h.malformed, h.ignored));
}

marked-Books :
    (feed : Feed) (now : ℕ) (line why : String) (st : Station)
    → is_silent feed line ≡ false
    → Books feed line st (mark_malformed why now st)
unfolding mark_malformed
marked-Books feed now line why st e = record {
  tallied = λ t. record { counted = t.counted; room = t.room; few_dropped = t.few_dropped };
  accounted = rw e (omega arith);
}

ignored-Books :
    (feed : Feed) (line : String) (st : Station)
    → is_silent feed line ≡ false
    → Books feed line st (mark_ignored st)
ignored-Books feed line st e = record {
  tallied = λ t. record { counted = t.counted; room = t.room; few_dropped = t.few_dropped };
  accounted = rw e (omega arith);
}

passed-Books :
    (feed : Feed) (line : String) (st : Station)
    → is_silent feed line ≡ true
    → Books feed line st st
passed-Books feed line st e = record { tallied = λ t. t; accounted = rw e }

handle_line-Books :
    (feed : Feed) (now : ℕ) (line : String) (st : Station)
    → Books feed line st (handle_line feed now line st)
unfolding handle_line is_silent
handle_line-Books feed now line st = elim (Option-cases (extract_json line)) [
  | inl e ↦ elim (Bool-cases (opens_record line)) [
    | inl cut ↦ rw (e, handle_line, cut) (marked-Books feed now line _ st (rw (e, is_silent)))
    | inr plain ↦ rw (e, handle_line, plain) (ignored-Books feed line st (rw (e, is_silent)))
  ]
  | inr (js, e) ↦ elim (Result-cases (feed.decode js)) [
    | inl (why, bad) ↦
        rw (e, handle_line, bad) (marked-Books feed now line _ st (rw (e, is_silent, bad)))
    | inr (ev, good) ↦ elim (Bool-cases (str_eq ev.event_type "")) [
      | inl silent ↦
          rw (e, handle_line, good, take_event, silent)
            (passed-Books feed line st (rw (e, is_silent, good, silent)))
      | inr named ↦
          rw (e, handle_line, good)
            (Took-Books feed line st (take_event feed now ev js st) (rw (e, is_silent, good, named))
              (take_event-Took feed now ev js st named))
    ]
  ]
]

module _ (feed : Feed) where
  -- Whatever lines come in, the table of types goes on to count exactly the events that were
  -- received, with at most 24 types and "other", and no more events are dropped than received.
  pub handle_lines-IsTallied :
      (lines : List (ℕ × String)) (st : Station)
      → IsTallied st.listener
      → IsTallied (handle_lines feed lines st).listener
  unfolding handle_lines
  handle_lines-IsTallied [] st h = h
  handle_lines-IsTallied ((now, line) ∷ lines) st h =
      handle_lines-IsTallied lines (handle_line feed now line st)
        ((handle_line-Books feed now line st).tallied h)

  -- Every line is counted once, as received, malformed or ignored, but for those whose event names no
  -- type: they are not counted.
  pub handle_lines-accounts :
      (lines : List (ℕ × String)) (st : Station)
      → lines_of (handle_lines feed lines st).listener
          + count_where (λ (l : ℕ × String). is_silent feed l.1) lines
        ≡ lines_of st.listener + length lines
  unfolding handle_lines
  handle_lines-accounts [] st = omega arith
  handle_lines-accounts ((now, line) ∷ lines) st =
      let this = (handle_line-Books feed now line st).accounted in
      let others = handle_lines-accounts lines (handle_line feed now line st) in ground arith
