-- ===== src/Suricata/Used.antt =====
-- What the listener says that it does with a type of event, and what it does
-- (backend/internal/suricata/suricata.go, `usedFor` and `handle`).
use pmacct_suricata_analyzer.Prelude.{
  ℕ, ◌≡◌, refl, ◌∙◌, sym, true, false, String, Option, none, some, ok, arith, Option-cases,
  Bool-cases, inl, inr, if-either, str_eq, ◌||◌, eq_iff,
}
use pmacct_suricata_analyzer.Suricata.Types.{Event, EveAlert, Dns, Feed, Station}
use pmacct_suricata_analyzer.Suricata.Names.{upsert_ip_name, learn, handle_dns}
use pmacct_suricata_analyzer.Suricata.Handle.{
  used_for, type_key, answers, insert_event, raise_stored, handle_alert, with_part, handle,
}
use pmacct_suricata_analyzer.Suricata.Chains.{
  if_keeps, with_part_keeps, handle_dns_keeps, learn_named_keeps, handle_http_keeps,
}

-- The same stored events, and the same engine.
pub record Raises (st u : Station) : Type 0 where
  pub events : u.events ≡ st.events
  pub next_event : u.next_event ≡ st.next_event
  pub sys : u.sys ≡ st.sys

Raises-refl : (st : Station) → Raises st st
Raises-refl st = record { events = refl; next_event = refl; sys = refl }

Raises-trans : (st u v : Station) → Raises st u → Raises u v → Raises st v
Raises-trans st u v h k = record {
  events = k.events ∙ h.events;
  next_event = k.next_event ∙ h.next_event;
  sys = k.sys ∙ h.sys;
}

module _ (feed : Feed) (now : ℕ) where
  learn-Raises :
      (ip name source : String) (st : Station) → Raises st (learn feed now ip name source st).0
  unfolding learn upsert_ip_name
  learn-Raises ip name source st = ground arith

  handle_alert-names :
      (ev : Event) (a : EveAlert) (raw : String) (st : Station)
      → (handle_alert feed now ev a raw st).0.names ≡ st.names
  unfolding handle_alert insert_event raise_stored
  handle_alert-names ev a raw st = ground arith

  other-alert :
      (ev : Event) (raw : String) (st : Station)
      → str_eq ev.event_type "alert" ≡ false
      → Raises st (handle feed now ev raw st).0
  unfolding handle
  other-alert ev raw st e =
      let either = if_keeps Raises Raises-refl Raises-trans st in
      rw e (
        either (str_eq ev.event_type "dns") _ _
          (with_part_keeps Raises Raises-refl Raises-trans st ev.dns _
            (handle_dns_keeps Raises Raises-refl Raises-trans feed now learn-Raises))
          (either (str_eq ev.event_type "tls") _ _
            (with_part_keeps Raises Raises-refl Raises-trans st ev.tls _ (λ sni.
              learn_named_keeps Raises Raises-refl Raises-trans feed now learn-Raises ev sni "tls"))
            (either (str_eq ev.event_type "http") _ (st, ok tt)
              (with_part_keeps Raises Raises-refl Raises-trans st ev.http _
                (handle_http_keeps Raises Raises-refl Raises-trans feed now learn-Raises ev))
              (Raises-refl st))))

  alert-names :
      (ev : Event) (raw : String) (st : Station)
      → str_eq ev.event_type "alert" ≡ true
      → (handle feed now ev raw st).0.names ≡ st.names
  unfolding handle
  alert-names ev raw st e = elim (Option-cases ev.alert) [
    | inl n ↦ rw (e, n) refl
    | inr (a, s) ↦ rw (e, s) (handle_alert-names ev a raw st)
  ]

  query-nothing :
      (d : Option Dns) (st : Station)
      → answers d ≡ false
      → with_part d (handle_dns feed now) st ≡ (st, ok tt)
  unfolding handle_dns
  query-nothing none st e = refl
  query-nothing (some d) st e = rw e refl

  used_alert :
      (ev : Event) → str_eq ev.event_type "alert" ≡ true → used_for (type_key ev) ≡ "alerts"
  unfolding used_for type_key
  used_alert ev e = rw ((eq_iff ev.event_type "alert").0 e) refl

  used_answer :
      (ev : Event)
      → str_eq ev.event_type "dns" ≡ true
      → answers ev.dns ≡ true
      → used_for (type_key ev) ≡ "names"
  unfolding used_for type_key
  used_answer ev e full = rw (e, full) refl

  used_tls : (ev : Event) → str_eq ev.event_type "tls" ≡ true → used_for (type_key ev) ≡ "names"
  unfolding used_for type_key
  used_tls ev e = rw ((eq_iff ev.event_type "tls").0 e) refl

  used_http : (ev : Event) → str_eq ev.event_type "http" ≡ true → used_for (type_key ev) ≡ "names"
  unfolding used_for type_key
  used_http ev e = rw ((eq_iff ev.event_type "http").0 e) refl

  used_other :
      (ev : Event)
      → str_eq ev.event_type "alert" ≡ false
      → str_eq (used_for (type_key ev)) "alerts" ≡ false
  unfolding used_for type_key
  used_other ev e = elim (Bool-cases (str_eq ev.event_type "dns")) [
    | inl d ↦ elim (Bool-cases (answers ev.dns)) [
      | inl full ↦ rw (d, full) refl
      | inr none' ↦ rw (d, none') refl
    ]
    | inr d ↦
        rw (d, e)
          (if-either (λ (u : String). str_eq u "alerts" ≡ false)
            (str_eq ev.event_type "dns.answer"
              || (str_eq ev.event_type "tls" || str_eq ev.event_type "http"))
            "names" "" refl refl)
  ]

  -- Two words that an event is used for are not both its own.
  two_uses {ℓ} :
      {A : Type ℓ} (ev : Event) (v w : String)
      → str_eq v w ≡ false
      → used_for (type_key ev) ≡ v
      → used_for (type_key ev) ≡ w
      → A
  two_uses ev v w apart h k = absurd (cc (sym apart ∙ (eq_iff v w).1 (sym h ∙ k)))

  unused-nothing :
      (ev : Event) (raw : String) (st : Station)
      → used_for (type_key ev) ≡ ""
      → handle feed now ev raw st ≡ (st, ok tt)
  unfolding handle
  unused-nothing ev raw st h = elim (Bool-cases (str_eq ev.event_type "alert")) [
    | inl e ↦ two_uses ev "alerts" "" refl (used_alert ev e) h
    | inr e ↦ elim (Bool-cases (str_eq ev.event_type "dns")) [
      | inl d ↦ elim (Bool-cases (answers ev.dns)) [
        | inl full ↦ two_uses ev "names" "" refl (used_answer ev d full) h
        | inr empty ↦ rw (e, d) (query-nothing ev.dns st empty)
      ]
      | inr d ↦ elim (Bool-cases (str_eq ev.event_type "tls")) [
        | inl t ↦ two_uses ev "names" "" refl (used_tls ev t) h
        | inr t ↦ elim (Bool-cases (str_eq ev.event_type "http")) [
          | inl w ↦ two_uses ev "names" "" refl (used_http ev w) h
          | inr w ↦ rw (e, d, t, w) refl
        ]
      ]
    ]
  ]

  -- What `usedFor` says of an event is what `handle` does with it: an event that is used for nothing
  -- changes nothing and never fails; one that is used for names stores no event and raises nothing; and
  -- one that is used for alerts teaches no name.
  pub used_for-handle :
      (ev : Event) (raw : String) (st : Station)
      → (used_for (type_key ev) ≡ "" → handle feed now ev raw st ≡ (st, ok tt))
        × (used_for (type_key ev) ≡ "names" → Raises st (handle feed now ev raw st).0)
        × (used_for (type_key ev) ≡ "alerts" → (handle feed now ev raw st).0.names ≡ st.names)
  used_for-handle ev raw st = (
    unused-nothing ev raw st,
    λ h. elim (Bool-cases (str_eq ev.event_type "alert")) [
      | inl e ↦ two_uses ev "alerts" "names" refl (used_alert ev e) h
      | inr e ↦ other-alert ev raw st e
    ],
    λ h. elim (Bool-cases (str_eq ev.event_type "alert")) [
      | inl e ↦ alert-names ev raw st e
      | inr e ↦ absurd (cc (sym ((eq_iff (used_for (type_key ev)) "alerts").1 h) ∙ used_other ev e))
    ],
  )
