-- ===== src/Agents/Accounts.antt =====
-- Every connection of a batch is accepted or rejected (backend/internal/api/agents.go, `agentEvents`).
use pmacct_suricata_analyzer.Prelude.{
  ℕ, ◌+◌, ◌≡◌, refl, Bool, not, ◌||◌, ltb, length, List, [], ◌∷◌, String, Result, ok, err,
  Result-cases, inl, inr, arith, if-either,
}
use pmacct_suricata_analyzer.Alerts.{DbError, failed}
use pmacct_suricata_analyzer.Agents.Rows.{
  Agent, Conn, ProgramIdentity, Store, AgentEnv, insert_conns,
}
use pmacct_suricata_analyzer.Agents.Reports.{
  Beat, put_conns, touch_agent, insert_endpoint_conns, upsert_program_identities,
}
use pmacct_suricata_analyzer.Agents.Ingest.{
  Request, Refusal, refused, allows_transport, no_tls, agent_auth, trunc, clean_ips, remote_ip,
}
use pmacct_suricata_analyzer.Agents.Checks.{sift, valid_programs}
use pmacct_suricata_analyzer.Agents.Handlers.{
  EventsRequest, EventsReply, Builds, take_programs, take_batch, take_body, known_agent,
  max_agent_batch, agent_events,
}
use pmacct_suricata_analyzer.Agents.Sane.{sift-length}

-- What is answered for `n` connections, if it is no error.
abbrev pub Accounts : ℕ → Result Refusal EventsReply → Type 0
Accounts n (err e) = Unit
Accounts n (ok r) = r.accepted + r.rejected ≡ n

abbrev Counts : ℕ → Result DbError ℕ → Type 0
Counts n (err e) = Unit
Counts n (ok m) = m ≡ n

insert-Counts :
    (env : AgentEnv) (id : ℕ) (cs : List Conn) (st : Store)
    → Counts (length cs) (insert_endpoint_conns env id cs st).1
unfolding insert_endpoint_conns
insert-Counts env id [] st = refl
insert-Counts env id (c ∷ cs) st =
    if-either (λ (r : Store × Result DbError ℕ). Counts (length (c ∷ cs)) r.1)
      (env.fails insert_conns) (st, err failed)
      (record st { conns = put_conns id (c ∷ cs) st.conns }, ok (length (c ∷ cs))) tt refl

module _ (env : AgentEnv) (builds : Builds) (now : ℕ) where
  take_programs-Accounts :
      (a : Agent) (ps : List ProgramIdentity) (n m : ℕ) (st : Store)
      → Accounts (n + m) (take_programs env builds now a ps (n, m) st).1
  unfolding take_programs
  take_programs-Accounts a [] n m st = refl
  take_programs-Accounts a (p ∷ ps) n m st =
      elim (Result-cases
        (upsert_program_identities env now a.id (valid_programs env (p ∷ ps)) st).1) [
          | inl (e, bad) ↦ rw (bad, take_programs) tt
          | inr (k, good) ↦ rw (good, take_programs) refl
        ]

  take_batch-Accounts :
      (addr : String) (a : Agent) (b : EventsRequest) (st : Store)
      → Accounts (length b.conns) (take_batch env builds now addr a b st).1
  unfolding take_batch
  take_batch-Accounts addr a b st =
      let valid = (sift env now b.conns).0 in
      let counted = insert-Counts env a.id valid st in
      elim (Result-cases (insert_endpoint_conns env a.id valid st).1) [
        | inl (e, bad) ↦ rw (bad, take_batch) tt
        | inr (n, good) ↦
            let stored : n ≡ length valid = rw good at counted in
            let beat : Beat = record {
              ips = clean_ips env b.ips;
              version = trunc env b.version 40;
              capture = trunc env b.capture 20;
              remote = remote_ip env addr;
              batch = n;
              dropped = b.dropped;
            } in
            let st' = (insert_endpoint_conns env a.id valid st).0 in
            let st'' = (touch_agent env now a.id beat st').0 in
            let all : n + (sift env now b.conns).1 ≡ length b.conns =
              omega (arith, stored, sift-length env now b.conns) in
            let answered = take_programs-Accounts a b.programs n (sift env now b.conns).1 st'' in
            elim (Result-cases (touch_agent env now a.id beat st').1) [
              | inl (e, bad) ↦ rw (good, take_batch, bad) tt
              | inr (t, fine) ↦ rw (good, take_batch, fine) (rw all at answered)
            ]
      ]

  take_body-Accounts :
      (addr : String) (a : Agent) (body : Result String EventsRequest) (b : EventsRequest)
      (st : Store)
      → body ≡ ok b
      → Accounts (length b.conns) (take_body env builds now addr a body st).1
  take_body-Accounts addr a body b st held =
      rw (held, take_body)
        (if-either (λ (r : Store × Result Refusal EventsReply). Accounts (length b.conns) r.1)
          (ltb max_agent_batch (length b.conns) || ltb 5000 (length b.programs))
          (st, err (refused 413 "batch too large")) (take_batch env builds now addr a b st) tt
          (take_batch-Accounts addr a b st))

  known-Accounts :
      (req : Request EventsRequest) (b : EventsRequest) (st : Store) (r : Result Refusal Agent)
      → req.body ≡ ok b
      → Accounts (length b.conns) (known_agent env builds now req st r).1
  known-Accounts req b st (err e) held = tt
  known-Accounts req b st (ok a) held = take_body-Accounts req.remote_addr a req.body b st held

  -- Where a batch is answered without an error, the numbers of accepted and of rejected connections
  -- add up to those that were sent; the answer is the one to the batch that the body holds.
  pub agent_events-Accounts :
      (tls : Bool) (req : Request EventsRequest) (b : EventsRequest) (st : Store)
      → req.body ≡ ok b
      → Accounts (length b.conns) (agent_events env tls builds now req st).1
  unfolding agent_events
  agent_events-Accounts tls req b st held =
      if-either (λ (r : Store × Result Refusal EventsReply). Accounts (length b.conns) r.1)
        (not (allows_transport tls req.is_tls)) (st, err no_tls)
        (known_agent env builds now req st (agent_auth env req.authorization st)) tt
        (known-Accounts req b st (agent_auth env req.authorization st) held)
