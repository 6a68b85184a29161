-- ===== src/Agents/Keeps.antt =====
-- What the three statements of a batch keep is kept by the whole request
-- (backend/internal/api/agents.go, `agentEvents`).
use pmacct_suricata_analyzer.Prelude.{
  ℕ, Bool, not, ◌||◌, ltb, length, List, [], ◌∷◌, String, Result, ok, err, Result-cases, inl, inr,
  if-either,
}
use pmacct_suricata_analyzer.Agents.Checks.{sift, valid_programs}
use pmacct_suricata_analyzer.Agents.Rows.{Agent, Conn, ProgramIdentity, Store, AgentEnv}
use pmacct_suricata_analyzer.Agents.Reports.{
  Beat, touch_agent, insert_endpoint_conns, upsert_program_identities,
}
use pmacct_suricata_analyzer.Agents.Ingest.{
  Request, Refusal, allows_transport, agent_auth, trunc, clean_ips, remote_ip,
}
use pmacct_suricata_analyzer.Agents.Handlers.{
  EventsRequest, EventsReply, Builds, take_programs, take_batch, take_body, known_agent,
  max_agent_batch, agent_events,
}

module _ {κ} (P : Store → Type κ) (env : AgentEnv) (now : ℕ)
    (inserts : (id : ℕ) (cs : List Conn) (st : Store)
      → P st
      → P (insert_endpoint_conns env id (sift env now cs).0 st).0)
    (touches : (id : ℕ) (b : Beat) (st : Store) → P st → P (touch_agent env now id b st).0)
    (names : (id : ℕ) (ps : List ProgramIdentity) (st : Store)
      → P st
      → P (upsert_program_identities env now id ps st).0) where
  take_programs_keeps :
      (builds : Builds) (a : Agent) (ps : List ProgramIdentity) (n : ℕ × ℕ) (st : Store)
      → P st
      → P (take_programs env builds now a ps n st).0
  unfolding take_programs
  take_programs_keeps builds a [] (n, m) st h = h
  take_programs_keeps builds a (p ∷ ps) (n, m) st h =
      let kept = names a.id (valid_programs env (p ∷ ps)) st h in
      elim (Result-cases
        (upsert_program_identities env now a.id (valid_programs env (p ∷ ps)) st).1) [
          | inl (e, bad) ↦ rw (bad, take_programs) kept
          | inr (k, good) ↦ rw (good, take_programs) kept
        ]

  -- The heartbeat, and the programs behind it.
  take_batch_keeps :
      (builds : Builds) (addr : String) (a : Agent) (b : EventsRequest) (st : Store)
      → P st
      → P (take_batch env builds now addr a b st).0
  unfolding take_batch
  take_batch_keeps builds addr a b st h =
      let kept = inserts a.id b.conns st h in
      elim (Result-cases (insert_endpoint_conns env a.id (sift env now b.conns).0 st).1) [
        | inl (e, bad) ↦ rw (bad, take_batch) kept
        | inr (n, good) ↦
            let beat : Beat = record {
              ips = clean_ips env b.ips;
              version = trunc env b.version 40;
              capture = trunc env b.capture 20;
              remote = remote_ip env addr;
              batch = n;
              dropped = b.dropped;
            } in
            let st' = (insert_endpoint_conns env a.id (sift env now b.conns).0 st).0 in
            let seen = touches a.id beat st' kept in
            elim (Result-cases (touch_agent env now a.id beat st').1) [
              | inl (e, bad) ↦ rw (good, take_batch, bad) seen
              | inr (t, fine) ↦
                  rw (good, take_batch, fine)
                    (take_programs_keeps builds a b.programs (n, (sift env now b.conns).1)
                      (touch_agent env now a.id beat st').0 seen)
            ]
      ]

  body_keeps :
      (builds : Builds) (addr : String) (a : Agent) (body : Result String EventsRequest)
      (st : Store)
      → P st
      → P (take_body env builds now addr a body st).0
  body_keeps builds addr a (err why) st h = h
  body_keeps builds addr a (ok b) st h =
      if-either (λ (r : Store × Result Refusal EventsReply). P r.0)
        (ltb max_agent_batch (length b.conns) || ltb 5000 (length b.programs)) _ _ h
        (take_batch_keeps builds addr a b st h)

  known_keeps :
      (builds : Builds) (req : Request EventsRequest) (st : Store) (r : Result Refusal Agent)
      → P st
      → P (known_agent env builds now req st r).0
  known_keeps builds req st (err r) h = h
  known_keeps builds req st (ok a) h = body_keeps builds req.remote_addr a req.body st h

  -- A request keeps it on every branch.
  pub agent_events_keeps :
      (tls : Bool) (builds : Builds) (req : Request EventsRequest) (st : Store)
      → P st
      → P (agent_events env tls builds now req st).0
  unfolding agent_events
  agent_events_keeps tls builds req st h =
      if-either (λ (r : Store × Result Refusal EventsReply). P r.0)
        (not (allows_transport tls req.is_tls)) _ _ h
        (known_keeps builds req st (agent_auth env req.authorization st) h)
