-- ===== src/Suricata/Chains.antt =====
-- A relation that learning a name keeps is kept by the handling of an answer of DNS
-- (backend/internal/suricata/suricata.go, `handle`).
use pmacct_suricata_analyzer.Prelude.{
  ℕ, Bool, List, [], ◌∷◌, String, Option, none, some, ok, err, Option-cases, Bool-cases, inl, inr,
  if-either, str_eq, not, ◌&&◌, if◌then◌else◌,
}
use pmacct_suricata_analyzer.Suricata.Types.{Event, Dns, Answer, Feed, Station}
use pmacct_suricata_analyzer.Suricata.Names.{
  Step, next, learn, add_answer, add_answers, add_all, add_single, add_v6, add_v4, handle_dns,
  is_address_type, name_after, grouped, last_name, is_answer,
}
use pmacct_suricata_analyzer.Suricata.Handle.{learn_named, handle_http, with_part}

module _ {κ} (R : Station → Station → Type κ) (R_refl : (st : Station) → R st st)
    (R_trans : (st u v : Station) → R st u → R u v → R st v) where
  next_keeps :
      (st : Station) (p : Step) (f : Station → Step)
      → R st p.0
      → ((u : Station) → R u (f u).0)
      → R st (next p f).0
  next_keeps st (u, ok _) f h k = R_trans st u (f u).0 h (k u)
  next_keeps st (u, err e) f h k = h

  -- A test keeps what both branches keep.
  pub if_keeps :
      (st : Station) (b : Bool) (p q : Step) → R st p.0 → R st q.0 → R st (if b then p else q).0
  if_keeps st b p q = if-either (λ (r : Step). R st r.0) b p q

  pub with_part_keeps :
      {A : Type 0} (st : Station) (o : Option A) (f : A → Station → Step)
      → ((a : A) (u : Station) → R u (f a u).0)
      → R st (with_part o f st).0
  with_part_keeps st none f h = R_refl st
  with_part_keeps st (some a) f h = h a st

  module _ (feed : Feed) (now : ℕ)
      (learn_keeps : (ip name source : String) (st : Station)
        → R st (learn feed now ip name source st).0) where
    add_answer_keeps : (name ip : String) (st : Station) → R st (add_answer feed now name ip st).0
    unfolding add_answer
    add_answer_keeps name ip st =
        if_keeps st _ (st, ok tt) _ (R_refl st) (learn_keeps ip name "dns" st)

    add_all_keeps :
        (name : String) (ips : List String) (st : Station) → R st (add_all feed now name ips st).0
    unfolding add_all
    add_all_keeps name [] st = R_refl st
    add_all_keeps name (ip ∷ ips) st =
        next_keeps st _ _ (add_answer_keeps name ip st) (add_all_keeps name ips)

    add_answers_keeps :
        (name : String) (answers : List Answer) (st : Station)
        → R st (add_answers feed now name answers st).0
    unfolding add_answers
    add_answers_keeps name [] st = R_refl st
    add_answers_keeps name (a ∷ answers) st =
        next_keeps st _ _
          (if_keeps st (is_address_type a.rr_type) _ (st, ok tt)
            (add_answer_keeps (name_after name a) a.r_data st) (R_refl st))
          (add_answers_keeps (name_after name a) answers)

    add_single_keeps :
        (name : String) (d : Dns) (st : Station) → R st (add_single feed now name d st).0
    unfolding add_single
    add_single_keeps name d st =
        if_keeps st (is_address_type d.rr_type && not (str_eq d.r_data ""))
          (add_answer feed now name d.r_data st) (st, ok tt) (add_answer_keeps name d.r_data st)
          (R_refl st)

    add_v6_keeps : (name : String) (d : Dns) (st : Station) → R st (add_v6 feed now name d st).0
    unfolding add_v6
    add_v6_keeps name d st =
        next_keeps st (add_all feed now name (grouped "AAAA" d.grouped) st)
          (add_single feed now name d) (add_all_keeps name (grouped "AAAA" d.grouped) st)
          (add_single_keeps name d)

    add_v4_keeps : (name : String) (d : Dns) (st : Station) → R st (add_v4 feed now name d st).0
    unfolding add_v4
    add_v4_keeps name d st =
        next_keeps st (add_all feed now name (grouped "A" d.grouped) st) (add_v6 feed now name d)
          (add_all_keeps name (grouped "A" d.grouped) st) (add_v6_keeps name d)

    pub handle_dns_keeps : (d : Dns) (st : Station) → R st (handle_dns feed now d st).0
    unfolding handle_dns
    handle_dns_keeps d st = elim (Bool-cases (is_answer d)) [
      | inl e ↦ rw e (
          next_keeps st (add_answers feed now d.rr_name d.answers st)
            (add_v4 feed now (last_name d.rr_name d.answers) d)
            (add_answers_keeps d.rr_name d.answers st)
            (add_v4_keeps (last_name d.rr_name d.answers) d))
      | inr e ↦ rw e (R_refl st)
    ]

    pub learn_named_keeps :
        (ev : Event) (name source : String) (st : Station)
        → R st (learn_named feed now ev name source st).0
    learn_named_keeps ev name source st =
        if_keeps st _ (st, ok tt) _ (R_refl st) (learn_keeps ev.dest_ip name source st)

    pub handle_http_keeps :
        (ev : Event) (name : String) (st : Station) → R st (handle_http feed now ev name st).0
    handle_http_keeps ev name st = elim (Option-cases (feed.env.net.parse_addr name)) [
      | inl e ↦ rw (e, handle_http) (learn_named_keeps ev name "http" st)
      | inr (_, e) ↦ rw (e, handle_http) (R_refl st)
    ]
