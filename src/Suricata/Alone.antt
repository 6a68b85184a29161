-- ===== src/Suricata/Alone.antt =====
-- One handler that no other disturbs (backend/internal/suricata/suricata.go, `HandleLine`).
use pmacct_suricata_analyzer.Prelude.{
  ℕ, zero, suc, ◌+◌, ◌≡◌, refl, String, Option, none, some, ok, err, Option-cases, Result-cases,
  Bool-cases, inl, inr, str_eq,
}
use pmacct_suricata_analyzer.Suricata.Types.{Event, Feed, Station}
use pmacct_suricata_analyzer.Suricata.Lines.{extract_json, opens_record}
use pmacct_suricata_analyzer.Suricata.Names.{Step}
use pmacct_suricata_analyzer.Suricata.Handle.{
  handle, handle_line, mark_malformed, take_event, settle, receive,
}
use pmacct_suricata_analyzer.Suricata.Handlers.{
  Stage, reading, cut, arrived, advance, read_line, after_handle,
}

-- At most so many accesses of one handler, and where it stands after them.
unfoldable pub run_alone : Feed → ℕ → ℕ → Station × Option Stage → Station × Option Stage
unfolding advance
run_alone feed now zero p = p
run_alone feed now (suc n) (st, none) = (st, none)
run_alone feed now (suc n) (st, some h) = run_alone feed now n (advance feed now h st)

module _ (feed : Feed) (now : ℕ) where
  run_cut :
      (why : String) (st : Station)
      → run_alone feed now 4 (st, some (cut why)) ≡ (mark_malformed why now st, none)
  unfolding run_alone advance mark_malformed
  run_cut why st = refl

  run_done : (st : Station) → run_alone feed now 4 (st, none) ≡ (st, none)
  unfolding run_alone
  run_done st = refl

  run_handled : (p : Step) → run_alone feed now 2 (after_handle p) ≡ (settle feed now p, none)
  unfolding run_alone advance settle
  run_handled (st, ok _) = refl
  run_handled (st, err e) = refl

  run_taken :
      (ev : Event) (js : String) (st : Station)
      → run_alone feed now 4 (
        record st { listener = record (st.listener) { received = st.listener.received + 1 } },
        some (arrived ev js),
      )
        ≡ (
          settle feed now
              (handle feed now ev js (record st { listener = receive now ev st.listener })),
          none,
        )
  unfolding run_alone advance receive
  run_taken ev js st =
      run_handled (handle feed now ev js (record st { listener = receive now ev st.listener }))

  run_read :
      (line : String) (st : Station)
      → run_alone feed now 4 (read_line feed line st) ≡ (handle_line feed now line st, none)
  unfolding handle_line read_line
  run_read line st = elim (Option-cases (extract_json line)) [
    | inl e ↦ elim (Bool-cases (opens_record line)) [
      | inl open_brace ↦ rw (e, read_line, handle_line, open_brace) (run_cut _ st)
      | inr plain ↦ rw (e, read_line, handle_line, plain) (run_done _)
    ]
    | inr (js, e) ↦ elim (Result-cases (feed.decode js)) [
      | inl (why, bad) ↦ rw (e, read_line, handle_line, bad) (run_cut _ st)
      | inr (ev, good) ↦ elim (Bool-cases (str_eq ev.event_type "")) [
        | inl silent ↦ rw (e, read_line, handle_line, take_event, good, silent) (run_done st)
        | inr named ↦ rw (e, read_line, handle_line, take_event, good, named) (run_taken ev js st)
      ]
    ]
  ]

  -- A handler that runs alone, its clock standing still, has returned after five accesses, and has
  -- done to the listener, the rows and the engine just what `handle_line` does.
  pub run_alone-handle_line :
      (line : String) (st : Station)
      → run_alone feed now 5 (st, some (reading line)) ≡ (handle_line feed now line st, none)
  unfolding run_alone advance
  run_alone-handle_line line st = run_read line st
