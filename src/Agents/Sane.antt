-- ===== src/Agents/Sane.antt =====
-- What agents report is stored in bounds, and every connection is accounted for
-- (backend/internal/api/agents.go, `validConn` and `agentEvents`).
use pmacct_suricata_analyzer.Prelude.{
  ℕ, ◌+◌, ◌≡◌, refl, Bool, true, not, List, [], ◌∷◌, String, Option, none, some, Result, ok, err,
  length, All, arith, Bool-cases, Option-cases, inl, inr, if◌then◌else◌, if-either,
}
use pmacct_suricata_analyzer.Prelude.Int.{ℤ, pos, negsuc, ◌+ℤ◌, leb_ℤ}
use pmacct_suricata_analyzer.Alerts.{DbError, failed}
use pmacct_suricata_analyzer.Agents.Checks.{
  at_least, is_known_proto, is_port, is_timely, tidy_conn, valid_conn, sift,
}
use pmacct_suricata_analyzer.Agents.Rows.{Conn, ConnRow, Store, AgentEnv, same_key, insert_conns}
use pmacct_suricata_analyzer.Agents.Reports.{
  Beat, touch_agent, insert_endpoint_conns, merged, put_conn, put_conns, in_minute,
}
use pmacct_suricata_analyzer.Agents.Ingest.{Request}
use pmacct_suricata_analyzer.Agents.Handlers.{EventsRequest, Builds, agent_events}
use pmacct_suricata_analyzer.Agents.Frames.{upsert-Same}
use pmacct_suricata_analyzer.Agents.Keeps.{agent_events_keeps}

-- A connection over a known protocol to a port, made at least once, of no negative size.
pub record IsSane (c : Conn) : Type 0 where
  pub known : is_known_proto c.proto ≡ true
  pub port : is_port c.dst_port ≡ true
  pub made : leb_ℤ (pos 1) c.count ≡ true
  pub sized : leb_ℤ (pos 0) c.bytes ≡ true

abbrev pub AreSane : List ConnRow → Type 0
AreSane rows = All (λ (r : ConnRow). IsSane r.conn) rows

at_least_one : (n : ℤ) → leb_ℤ (pos 1) (if leb_ℤ n (pos 0) then pos 1 else n) ≡ true
at_least_one (pos n) = ground arith
at_least_one (negsuc n) = ground arith

at_least_low : (n : ℤ) → leb_ℤ (pos 0) (at_least (pos 0) n) ≡ true
at_least_low (pos n) = ground arith
at_least_low (negsuc n) = ground arith

add_low :
    (k : ℕ) (m n : ℤ)
    → leb_ℤ (pos k) m ≡ true
    → leb_ℤ (pos 0) n ≡ true
    → leb_ℤ (pos k) (m +ℤ n) ≡ true
unfolding ◌+ℤ◌
add_low k (pos m) (pos n) e f = ground arith
add_low k (negsuc m) n e f = absurd (ground arith)
add_low k (pos m) (negsuc n) e f = absurd (ground arith)

more_than_none : (n : ℤ) → leb_ℤ (pos 1) n ≡ true → leb_ℤ (pos 0) n ≡ true
more_than_none (pos n) e = ground arith
more_than_none (negsuc n) e = absurd (ground arith)

merged-IsSane : (new old : Conn) → IsSane new → IsSane old → IsSane (merged new old)
unfolding merged
merged-IsSane new old n o = record {
  known = o.known;
  port = o.port;
  made = add_low 1 old.count new.count o.made (more_than_none new.count n.made);
  sized = add_low 0 old.bytes new.bytes o.sized n.sized;
}

put_conn-IsSane :
    (r : ConnRow) (rows : List ConnRow) → IsSane r.conn → AreSane rows → AreSane (put_conn r rows)
unfolding put_conn
put_conn-IsSane r [] h k = (h, tt)
put_conn-IsSane r (s ∷ rows) h (k, ks) =
    if-either AreSane (same_key r s) (record s { conn = merged r.conn s.conn } ∷ rows)
      (s ∷ put_conn r rows) (merged-IsSane r.conn s.conn h k, ks) (k, put_conn-IsSane r rows h ks)

put_conns-IsSane :
    (id : ℕ) (cs : List Conn) (rows : List ConnRow)
    → All IsSane cs
    → AreSane rows
    → AreSane (put_conns id cs rows)
unfolding put_conns
put_conns-IsSane id [] rows h k = k
put_conns-IsSane id (c ∷ cs) rows (h, hs) k =
    let r : ConnRow = record { agent_id = id; conn = in_minute c } in
    put_conns-IsSane id cs (put_conn r rows) hs (
      put_conn-IsSane r rows
        (record { known = h.known; port = h.port; made = h.made; sized = h.sized }) k)

-- What an option carries, if anything.
abbrev Holds {ℓ κ} : {A : Type ℓ} → (A → Type κ) → Option A → Type κ
Holds P none = Unit
Holds P (some a) = P a

module _ (env : AgentEnv) (now : ℕ) where
  tidy_conn-IsSane :
      (h d : String) (c : Conn)
      → is_known_proto (env.to_lower c.proto) ≡ true
      → is_port c.dst_port ≡ true
      → IsSane (tidy_conn env h d c)
  unfolding tidy_conn
  tidy_conn-IsSane h d c known port = record {
    known = known;
    port = port;
    made = at_least_one c.count;
    sized = at_least_low c.bytes;
  }

  valid_conn-Holds : (c : Conn) → Holds IsSane (valid_conn env now c)
  unfolding valid_conn
  valid_conn-Holds c = elim (Bool-cases (is_known_proto (env.to_lower c.proto))) [
    | inr e ↦ rw (e, valid_conn) tt
    | inl known ↦ elim (Option-cases (env.unmapped c.host)) [
      | inl e ↦ rw (known, valid_conn, e) tt
      | inr (h, eh) ↦ elim (Option-cases (env.unmapped c.dst)) [
        | inl e ↦ rw (known, valid_conn, eh, e) tt
        | inr (d, ed) ↦ elim (Bool-cases (is_port c.dst_port)) [
          | inr e ↦ rw (known, valid_conn, eh, ed, e) tt
          | inl port ↦
              rw (known, valid_conn, eh, ed, port)
                (if-either (Holds IsSane) (not (is_timely now c.minute)) none
                  (some (tidy_conn env h d c)) tt (tidy_conn-IsSane h d c known port))
        ]
      ]
    ]
  ]

  valid_conn-IsSane : (c v : Conn) → valid_conn env now c ≡ some v → IsSane v
  valid_conn-IsSane c v e = let h = valid_conn-Holds c in rw e at h

  sift-IsSane : (cs : List Conn) → All IsSane (sift env now cs).0
  unfolding sift
  sift-IsSane [] = tt
  sift-IsSane (c ∷ cs) = elim (Option-cases (valid_conn env now c)) [
    | inl e ↦ rw (e, sift) (sift-IsSane cs)
    | inr (v, e) ↦ rw (e, sift) (valid_conn-IsSane c v e, sift-IsSane cs)
  ]

  pub sift-length : (cs : List Conn) → length (sift env now cs).0 + (sift env now cs).1 ≡ length cs
  unfolding sift
  sift-length [] = refl
  sift-length (c ∷ cs) = elim (Option-cases (valid_conn env now c)) [
    | inl e ↦ rw (e, sift) (omega (arith, sift-length cs))
    | inr (v, e) ↦ rw (e, sift) (omega (arith, sift-length cs))
  ]

  insert-IsSane :
      (id : ℕ) (cs : List Conn) (st : Store)
      → All IsSane cs
      → AreSane st.conns
      → AreSane (insert_endpoint_conns env id cs st).0.conns
  unfolding insert_endpoint_conns
  insert-IsSane id [] st h k = k
  insert-IsSane id (c ∷ cs) st h k =
      if-either (λ (r : Store × Result DbError ℕ). AreSane r.0.conns) (env.fails insert_conns)
        (st, err failed)
        (record st { conns = put_conns id (c ∷ cs) st.conns }, ok (length (c ∷ cs))) k
        (put_conns-IsSane id (c ∷ cs) st.conns h k)

  touch-conns : (id : ℕ) (b : Beat) (st : Store) → (touch_agent env now id b st).0.conns ≡ st.conns
  unfolding touch_agent
  touch-conns id b st = ground arith

  -- Whatever an agent sends, and on every branch, the stored connections go on to be over TCP or UDP,
  -- to a port from 0 to 65535, with a count of at least 1 and no negative number of bytes.
  pub agent_events-AreSane :
      (tls : Bool) (builds : Builds) (req : Request EventsRequest) (st : Store)
      → AreSane st.conns
      → AreSane (agent_events env tls builds now req st).0.conns
  agent_events-AreSane tls builds req st h =
      agent_events_keeps (λ (u : Store). AreSane u.conns) env now
        (λ id cs u k. insert-IsSane id (sift env now cs).0 u (sift-IsSane cs) k)
        (λ id b u k. rw (touch-conns id b u) k)
        (λ id ps u k. rw (upsert-Same env now id ps u).conns k) tls builds req st h
