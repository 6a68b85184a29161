-- ===== src/Suricata/Overlap.antt =====
-- What a page shows while lines are handled (backend/internal/suricata/suricata.go, `HandleLine` and
-- `Stats`).
use pmacct_suricata_analyzer.Prelude.{
  ℕ, ◌+◌, ◌≤◌, ◌≡◌, refl, true, false, not, ◌||◌, List, [], ◌∷◌, ◌++◌, String, Option, none, some,
  ok, err, arith, Option-cases, Result-cases, Bool-cases, inl, inr, str_eq, length,
}
use pmacct_suricata_analyzer.Suricata.Types.{Event, Feed, Listener, Station}
use pmacct_suricata_analyzer.Suricata.Lines.{extract_json, opens_record}
use pmacct_suricata_analyzer.Suricata.Names.{Step}
use pmacct_suricata_analyzer.Suricata.Handle.{type_key, note, handle, max_types}
use pmacct_suricata_analyzer.Suricata.Handlers.{
  Stage, reading, cut, arrived, noted, lost, telling, advance, read_line, after_handle, needs_lock,
  Page, closed, locked, loaded, counted, is_closed, page_of, System, still, Moves, line_in, pick,
  lock_page, load_received, load_dropped, show_page, Runs, here, later,
}
use pmacct_suricata_analyzer.Suricata.Stats.{Stats, stats}
use pmacct_suricata_analyzer.Suricata.Table.{total, HasRoom, total-note_type, note_type-HasRoom}
use pmacct_suricata_analyzer.Suricata.Keeps.{Keeps, handle-Keeps}
use pmacct_suricata_analyzer.Suricata.Ledger.{IsTallied}
use pmacct_suricata_analyzer.Suricata.Shown.{shown, sort_counts-shown, sort_counts-length}

-- The events that are received and not yet noted.
abbrev pub in_flight : List Stage → ℕ
in_flight [] = 0
in_flight (arrived ev js ∷ hs) = 1 + in_flight hs
in_flight (_ ∷ hs) = in_flight hs

-- The events that are noted, and may yet be dropped.
abbrev at_work : List Stage → ℕ
at_work [] = 0
at_work (noted ev js ∷ hs) = 1 + at_work hs
at_work (lost e ∷ hs) = 1 + at_work hs
at_work (_ ∷ hs) = at_work hs

in_flight-append : (hs more : List Stage) → in_flight (hs ++ more) ≡ in_flight hs + in_flight more
in_flight-append [] more = omega arith
in_flight-append (reading l ∷ hs) more = in_flight-append hs more
in_flight-append (cut w ∷ hs) more = in_flight-append hs more
in_flight-append (arrived ev js ∷ hs) more = omega (arith, in_flight-append hs more)
in_flight-append (noted ev js ∷ hs) more = in_flight-append hs more
in_flight-append (lost e ∷ hs) more = in_flight-append hs more
in_flight-append (telling w ∷ hs) more = in_flight-append hs more

at_work-append : (hs more : List Stage) → at_work (hs ++ more) ≡ at_work hs + at_work more
at_work-append [] more = omega arith
at_work-append (reading l ∷ hs) more = at_work-append hs more
at_work-append (cut w ∷ hs) more = at_work-append hs more
at_work-append (arrived ev js ∷ hs) more = at_work-append hs more
at_work-append (noted ev js ∷ hs) more = omega (arith, at_work-append hs more)
at_work-append (lost e ∷ hs) more = omega (arith, at_work-append hs more)
at_work-append (telling w ∷ hs) more = at_work-append hs more

-- What one access of a run does to the counters.
record Moved (h : Stage) (st : Station) (p : Station × Option Stage) : Type 0 where
  counted :
      total p.0.listener.types + in_flight (still p.1) + st.listener.received
      ≡ total st.listener.types + in_flight (h ∷ []) + p.0.listener.received
  few :
      p.0.listener.dropped + at_work (still p.1) + total st.listener.types
      ≤ st.listener.dropped + at_work (h ∷ []) + total p.0.listener.types
  grows : st.listener.received ≤ p.0.listener.received
  room : HasRoom st.listener.types → HasRoom p.0.listener.types
  frozen : needs_lock h ≡ false → total p.0.listener.types ≡ total st.listener.types

-- An access that leaves the table and the number of received events alone.
unmoved :
    {h : Stage} {st u : Station} (next : Option Stage)
    → u.listener.types ≡ st.listener.types
    → u.listener.received ≡ st.listener.received
    → in_flight (still next) ≡ in_flight (h ∷ [])
    → u.listener.dropped + at_work (still next) ≤ st.listener.dropped + at_work (h ∷ [])
    → Moved h st (u, next)
unmoved next same received flight few = record {
  counted = rw same (omega (arith, received, flight));
  few = rw same (omega (arith, few));
  grows = omega (arith, received);
  room = λ r. rw same r;
  frozen = λ _. rw same refl;
}

received-Moved :
    (line js : String) (ev : Event) (st : Station)
    → Moved (reading line) st (
      record st { listener = record (st.listener) { received = st.listener.received + 1 } },
      some (arrived ev js),
    )
received-Moved line js ev st = record {
  counted = omega arith;
  few = omega arith;
  grows = omega arith;
  room = λ r. r;
  frozen = λ _. refl;
}

read_line-Moved :
    (feed : Feed) (line : String) (st : Station) → Moved (reading line) st (read_line feed line st)
unfolding read_line
read_line-Moved feed line st = elim (Option-cases (extract_json line)) [
  | inl e ↦ elim (Bool-cases (opens_record line)) [
    | inl open_brace ↦ rw (e, read_line, open_brace) (unmoved _ refl refl refl (omega arith))
    | inr plain ↦ rw (e, read_line, plain) (unmoved none refl refl refl (omega arith))
  ]
  | inr (js, e) ↦ elim (Result-cases (feed.decode js)) [
    | inl (why, bad) ↦ rw (e, read_line, bad) (unmoved _ refl refl refl (omega arith))
    | inr (ev, good) ↦ elim (Bool-cases (str_eq ev.event_type "")) [
      | inl silent ↦ rw (e, read_line, good, silent) (unmoved none refl refl refl (omega arith))
      | inr named ↦ rw (e, read_line, good, named) (received-Moved line js ev st)
    ]
  ]
]

note-Moved :
    (now : ℕ) (ev : Event) (js : String) (st : Station)
    → Moved
        (arrived ev js)
        st
        (record st { listener = note (type_key ev) now st.listener }, some (noted ev js))
unfolding note
note-Moved now ev js st = record {
  counted = omega (arith, total-note_type (type_key ev) now st.listener.types);
  few = omega (arith, total-note_type (type_key ev) now st.listener.types);
  grows = omega arith;
  room = note_type-HasRoom (type_key ev) now st.listener.types;
  frozen = λ e. cc;
}

after_handle-Moved :
    (ev : Event) (js : String) (st : Station) (p : Step)
    → Keeps st p.0
    → Moved (noted ev js) st (after_handle p)
after_handle-Moved ev js st (u, ok _) k =
    unmoved none k.types k.received refl (omega (arith, k.dropped))
after_handle-Moved ev js st (u, err e) k =
    unmoved (some (lost e)) k.types k.received refl (omega (arith, k.dropped))

advance-Moved :
    (feed : Feed) (now : ℕ) (h : Stage) (st : Station) → Moved h st (advance feed now h st)
unfolding advance
advance-Moved feed now (reading line) st = read_line-Moved feed line st
advance-Moved feed now (cut why) st = unmoved _ refl refl refl (omega arith)
advance-Moved feed now (arrived ev js) st = note-Moved now ev js st
advance-Moved feed now (noted ev js) st =
    after_handle-Moved ev js st (handle feed now ev js st) (handle-Keeps feed now ev js st)
advance-Moved feed now (lost e) st = unmoved _ refl refl refl (omega arith)
advance-Moved feed now (telling why) st = unmoved none refl refl refl (omega arith)

-- What has been loaded for the page, against the table that it will show.
abbrev pub Fits : Listener → Page → Type 0
Fits l closed = Unit
Fits l locked = Unit
Fits l (loaded r) = (total l.types ≤ r) × (r ≤ l.received)
Fits l (counted r d) = (total l.types ≤ r) × (r ≤ l.received) × (d ≤ total l.types)

record IsKept (s : System) : Type 0 where
  counted : total s.station.listener.types + in_flight s.handlers ≡ s.station.listener.received
  few : s.station.listener.dropped + at_work s.handlers ≤ total s.station.listener.types
  room : HasRoom s.station.listener.types
  page : Fits s.station.listener s.page

-- While the page holds the lock, the table stays and the number of received events grows.
Fits-moved :
    (l m : Listener) (p : Page)
    → (is_closed p ≡ false → total m.types ≡ total l.types)
    → l.received ≤ m.received
    → Fits l p
    → Fits m p
Fits-moved l m closed same grows h = tt
Fits-moved l m locked same grows h = tt
Fits-moved l m (loaded r) same grows (a, b) = (omega (arith, same refl), omega arith)
Fits-moved l m (counted r d) same grows (a, b, c) =
    (omega (arith, same refl), omega arith, omega (arith, same refl))

in_flight-between :
    (before mid others : List Stage)
    → in_flight (before ++ (mid ++ others)) ≡ in_flight before + in_flight mid + in_flight others
in_flight-between before mid others =
    omega (arith, in_flight-append before (mid ++ others), in_flight-append mid others)

at_work-between :
    (before mid others : List Stage)
    → at_work (before ++ (mid ++ others)) ≡ at_work before + at_work mid + at_work others
at_work-between before mid others =
    omega (arith, at_work-append before (mid ++ others), at_work-append mid others)

module _ (feed : Feed) where
  pick-IsKept :
      (s : System) (now : ℕ) (before others : List Stage) (h : Stage)
      → s.handlers ≡ before ++ h ∷ others
      → (not (needs_lock h) || is_closed s.page) ≡ true
      → IsKept s
      → IsKept (record s {
        station = (advance feed now h s.station).0;
        handlers = before ++ (still (advance feed now h s.station).1 ++ others);
      })
  pick-IsKept s now before others h e runs k =
      let m = advance-Moved feed now h s.station in
      let next = still (advance feed now h s.station).1 in
      let flying : in_flight s.handlers ≡ in_flight before + in_flight (h ∷ []) + in_flight others =
        rw e (in_flight-between before (h ∷ []) others) in
      let working : at_work s.handlers ≡ at_work before + at_work (h ∷ []) + at_work others =
        rw e (at_work-between before (h ∷ []) others) in
      record {
        counted = omega (arith, flying, in_flight-between before next others, m.counted, k.counted);
        few = omega (arith, working, at_work-between before next others, m.few, k.few);
        room = m.room k.room;
        page =
            Fits-moved s.station.listener (advance feed now h s.station).0.listener s.page
              (λ held. m.frozen (ground arith)) m.grows k.page;
      }

  Moves-IsKept : {s t : System} → Moves feed s t → IsKept s → IsKept t
  Moves-IsKept {s} (line_in line) k = record {
    counted = omega (arith, k.counted, in_flight-append s.handlers (reading line ∷ []));
    few = omega (arith, k.few, at_work-append s.handlers (reading line ∷ []));
    room = k.room;
    page = k.page;
  }
  Moves-IsKept {s} (pick now before others h e runs) k = pick-IsKept s now before others h e runs k
  Moves-IsKept (lock_page e) k = record {
    counted = k.counted;
    few = k.few;
    room = k.room;
    page = tt;
  }
  Moves-IsKept (load_received e) k = record {
    counted = k.counted;
    few = k.few;
    room = k.room;
    page = (omega (arith, k.counted), omega arith);
  }
  Moves-IsKept {s} (load_dropped {r} e) k =
      let fits : Fits s.station.listener (loaded r) = rw e at k.page in
      record {
        counted = k.counted;
        few = k.few;
        room = k.room;
        page = (fits.0, fits.1, omega (arith, k.few));
      }
  Moves-IsKept (show_page e) k = record {
    counted = k.counted;
    few = k.few;
    room = k.room;
    page = tt;
  }

  Runs-IsKept : {s t : System} → Runs feed s t → IsKept s → IsKept t
  Runs-IsKept here k = k
  Runs-IsKept (later r m) k = Moves-IsKept m (Runs-IsKept r k)

-- What a page shows: at most 25 types, whose counts add up to at most the events received and to no
-- fewer than were dropped; those missing are events whose goroutine has counted and not yet noted
-- them.
pub record AddsUp (flying : ℕ) (p : Stats) : Type 0 where
  pub within : shown p.types ≤ p.received
  pub missing : p.received ≤ shown p.types + flying
  pub dropped : p.dropped ≤ shown p.types
  pub few : length p.types ≤ max_types + 1

module _ (feed : Feed) {s t : System} where
  -- Start with a listener whose types add up to its received events, are at most 24 and "other", and
  -- are no fewer than its dropped events, while no line is handled and no page is read. Then however
  -- the accesses of the handlers of any lines and of the pages interleave, the counts that a page
  -- shows add up to at most the received events that it shows, and are no fewer than its dropped
  -- ones; what they lack is at most the events that handlers have counted and not yet noted; at most
  -- 25 types are shown.
  pub pages-add_up :
      IsTallied s.station.listener
      → s.handlers ≡ []
      → s.page ≡ closed
      → Runs feed s t
      → (r d : ℕ) → t.page ≡ counted r d
      → AddsUp (in_flight t.handlers) (page_of r d t.station.listener)
  unfolding page_of stats
  pages-add_up tallied idle quiet run r d e =
      let k = Runs-IsKept feed run (starts tallied idle quiet) in
      let fits : Fits t.station.listener (counted r d) = rw e at k.page in
      let all = sort_counts-shown t.station.listener.types in
      record {
        within = omega (arith, all, fits.0);
        missing = omega (arith, all, fits.1, k.counted);
        dropped = omega (arith, all, fits.2);
        few = ground (arith, sort_counts-length t.station.listener.types, k.room);
      }
    where
      starts : IsTallied s.station.listener → s.handlers ≡ [] → s.page ≡ closed → IsKept s
      starts h idle quiet = record {
        counted = rw idle (omega (arith, h.counted));
        few = rw idle (omega (arith, h.few_dropped, h.counted));
        room = h.room;
        page = rw quiet tt;
      }
