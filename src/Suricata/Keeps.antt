-- ===== src/Suricata/Keeps.antt =====
-- Handling an event leaves the counters of lines and the table of types alone
-- (backend/internal/suricata/suricata.go, `handle`).
use pmacct_suricata_analyzer.Prelude.{
  ℕ, ◌≡◌, refl, ◌∙◌, String, Option, none, some, ok, arith, Bool-cases, inl, inr, str_eq,
}
use pmacct_suricata_analyzer.Suricata.Types.{Event, EveAlert, Feed, IdsEvent, Station}
use pmacct_suricata_analyzer.Suricata.Names.{upsert_ip_name, learn}
use pmacct_suricata_analyzer.Suricata.Handle.{
  insert_event, raise_stored, stored_then, handle_alert, handle, ids_event,
}
use pmacct_suricata_analyzer.Suricata.Chains.{
  if_keeps, with_part_keeps, handle_dns_keeps, learn_named_keeps, handle_http_keeps,
}

-- The same counts of lines.
pub record Keeps (st u : Station) : Type 0 where
  pub received : u.listener.received ≡ st.listener.received
  pub malformed : u.listener.malformed ≡ st.listener.malformed
  pub ignored : u.listener.ignored ≡ st.listener.ignored
  pub dropped : u.listener.dropped ≡ st.listener.dropped
  pub types : u.listener.types ≡ st.listener.types

Keeps-refl : (st : Station) → Keeps st st
Keeps-refl st = record {
  received = refl;
  malformed = refl;
  ignored = refl;
  dropped = refl;
  types = refl;
}

Keeps-trans : (st u v : Station) → Keeps st u → Keeps u v → Keeps st v
Keeps-trans st u v h k = record {
  received = k.received ∙ h.received;
  malformed = k.malformed ∙ h.malformed;
  ignored = k.ignored ∙ h.ignored;
  dropped = k.dropped ∙ h.dropped;
  types = k.types ∙ h.types;
}

module _ (feed : Feed) (now : ℕ) where
  learn-Keeps :
      (ip name source : String) (st : Station) → Keeps st (learn feed now ip name source st).0
  unfolding learn upsert_ip_name
  learn-Keeps ip name source st = ground arith

  insert_event-Keeps :
      (event : ℕ → IdsEvent) (st : Station) → Keeps st (insert_event feed event st).0
  unfolding insert_event
  insert_event-Keeps event st = ground arith

  raise_stored-Keeps :
      (ev : Event) (a : EveAlert) (id : ℕ) (st : Station)
      → Keeps st (raise_stored feed now ev a id st).0
  unfolding raise_stored
  raise_stored-Keeps ev a id st = elim (Bool-cases feed.has_sink) [
    | inl e ↦
        rw e (record {
          received = refl;
          malformed = refl;
          ignored = refl;
          dropped = refl;
          types = refl;
        })
    | inr e ↦ rw e (Keeps-refl st)
  ]

  stored_then-Keeps :
      (ev : Event) (a : EveAlert) (st : Station) (p : Station × Option ℕ)
      → Keeps st p.0
      → Keeps st (stored_then feed now ev a p).0
  stored_then-Keeps ev a st (u, none) h = h
  stored_then-Keeps ev a st (u, some id) h =
      Keeps-trans st u (raise_stored feed now ev a id u).0 h (raise_stored-Keeps ev a id u)

  handle_alert-Keeps :
      (ev : Event) (a : EveAlert) (raw : String) (st : Station)
      → Keeps st (handle_alert feed now ev a raw st).0
  unfolding handle_alert
  handle_alert-Keeps ev a raw st =
      stored_then-Keeps ev a st (insert_event feed (ids_event feed now ev a raw) st)
        (insert_event-Keeps (ids_event feed now ev a raw) st)

  pub handle-Keeps :
      (ev : Event) (raw : String) (st : Station) → Keeps st (handle feed now ev raw st).0
  unfolding handle
  handle-Keeps ev raw st =
      let either = if_keeps Keeps Keeps-refl Keeps-trans st in
      either (str_eq ev.event_type "alert") _ _
        (with_part_keeps Keeps Keeps-refl Keeps-trans st ev.alert _
          (λ a. handle_alert-Keeps ev a raw))
        (either (str_eq ev.event_type "dns") _ _
          (with_part_keeps Keeps Keeps-refl Keeps-trans st ev.dns _
            (handle_dns_keeps Keeps Keeps-refl Keeps-trans feed now learn-Keeps))
          (either (str_eq ev.event_type "tls") _ _
            (with_part_keeps Keeps Keeps-refl Keeps-trans st ev.tls _ (λ sni.
              learn_named_keeps Keeps Keeps-refl Keeps-trans feed now learn-Keeps ev sni "tls"))
            (either (str_eq ev.event_type "http") _ (st, ok tt)
              (with_part_keeps Keeps Keeps-refl Keeps-trans st ev.http _
                (handle_http_keeps Keeps Keeps-refl Keeps-trans feed now learn-Keeps ev))
              (Keeps-refl st))))
