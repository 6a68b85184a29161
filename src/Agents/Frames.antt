-- ===== src/Agents/Frames.antt =====
-- The tables that a statement leaves alone (backend/internal/db/agents.go and identity.go).
use pmacct_suricata_analyzer.Prelude.{
  ℕ, zero, suc, ◌≡◌, refl, ◌∙◌, Bool, List, [], ◌∷◌, Result, ok, err, str_eq, not, ◌||◌, ◌==◌,
  if◌then◌else◌, if-either,
}
use pmacct_suricata_analyzer.Alerts.{DbError, failed}
use pmacct_suricata_analyzer.Agents.Rows.{
  Agent, Conn, ProgramIdentity, Store, AgentEnv, insert_identity, insert_file,
}
use pmacct_suricata_analyzer.Agents.Store.{on_agents, prune_old, prune_stale, prune_agent_data}
use pmacct_suricata_analyzer.Agents.Reports.{
  insert_endpoint_conns, upsert_identities_from, upsert_program_identities, put_identity, put_file,
}

-- The same tokens, agents and connections.
pub record Same (st u : Store) : Type 0 where
  pub tokens : u.tokens ≡ st.tokens
  pub agents : u.agents ≡ st.agents
  pub conns : u.conns ≡ st.conns

Same-refl : (st : Store) → Same st st
Same-refl st = record { tokens = refl; agents = refl; conns = refl }

module _ (env : AgentEnv) (now id : ℕ) where
  upsert_from-Same :
      (n : ℕ) (ps : List ProgramIdentity) (st : Store)
      → Same st (upsert_identities_from env now id n ps st).0
  unfolding upsert_identities_from
  upsert_from-Same n [] st = Same-refl st
  upsert_from-Same n (p ∷ ps) st =
      let either = if-either (λ (r : Store × Result DbError ℕ). Same st r.0) in
      let known : Store = record st { programs = put_identity now id p st.programs } in
      let both : Store = record known { files = put_file p st.files } in
      let behind = upsert_from-Same (suc n) ps both in
      let kept : Store × Result DbError ℕ = upsert_identities_from env now id n ps st in
      let done : Store × Result DbError ℕ = upsert_identities_from env now id (suc n) ps both in
      let filed : Store × Result DbError ℕ =
        if env.fails (insert_file p) then (known, err failed) else done in
      either (str_eq p.exe "" || not (env.byte_length p.sha256 == 64)) kept
        (if env.fails (insert_identity p) then (st, err failed) else filed)
        (upsert_from-Same n ps st)
        (either (env.fails (insert_identity p)) (st, err failed) filed (Same-refl st)
          (either (env.fails (insert_file p)) (known, err failed) done
            (record { tokens = refl; agents = refl; conns = refl })
            (record { tokens = behind.tokens; agents = behind.agents; conns = behind.conns })))

  pub upsert-Same :
      (ps : List ProgramIdentity) (st : Store)
      → Same st (upsert_program_identities env now id ps st).0
  unfolding upsert_program_identities
  upsert-Same ps st = upsert_from-Same 0 ps st

  pub insert-tokens :
      (cs : List Conn) (st : Store) → (insert_endpoint_conns env id cs st).0.tokens ≡ st.tokens
  unfolding insert_endpoint_conns
  insert-tokens [] st = refl
  insert-tokens (c ∷ cs) st =
      if-either (λ (r : Store × Result DbError ℕ). r.0.tokens ≡ st.tokens) _ _ _ refl refl

  pub insert-agents :
      (cs : List Conn) (st : Store) → (insert_endpoint_conns env id cs st).0.agents ≡ st.agents
  unfolding insert_endpoint_conns
  insert-agents [] st = refl
  insert-agents (c ∷ cs) st =
      if-either (λ (r : Store × Result DbError ℕ). r.0.agents ≡ st.agents) _ _ _ refl refl

pub on_agents-tokens :
    (fails : Bool) (p : Agent → Bool) (f : Agent → Agent) (st : Store)
    → (on_agents fails p f st).0.tokens ≡ st.tokens
on_agents-tokens fails p f st =
    if-either (λ (r : Store × Result DbError Bool). r.0.tokens ≡ st.tokens) fails _ _ refl refl

prune_stale-tokens :
    (env : AgentEnv) (now days : ℕ) (p : Store × Result DbError ℕ)
    → (prune_stale env now days p).0.tokens ≡ p.0.tokens
prune_stale-tokens env now days (st, err e) = refl
prune_stale-tokens env now zero (st, ok n) = refl
prune_stale-tokens env now (suc days) (st, ok n) =
    if-either (λ (r : Store × Result DbError (ℕ × ℕ)). r.0.tokens ≡ st.tokens) _ _ _ refl refl

prune_old-tokens :
    (env : AgentEnv) (now days : ℕ) (st : Store) → (prune_old env now days st).0.tokens ≡ st.tokens
prune_old-tokens env now zero st = refl
prune_old-tokens env now (suc days) st =
    if-either (λ (r : Store × Result DbError ℕ). r.0.tokens ≡ st.tokens) _ _ _ refl refl

pub prune_old-agents :
    (env : AgentEnv) (now days : ℕ) (st : Store) → (prune_old env now days st).0.agents ≡ st.agents
prune_old-agents env now zero st = refl
prune_old-agents env now (suc days) st =
    if-either (λ (r : Store × Result DbError ℕ). r.0.agents ≡ st.agents) _ _ _ refl refl

pub prune-tokens :
    (env : AgentEnv) (now conn_days stale_days : ℕ) (st : Store)
    → (prune_agent_data env now conn_days stale_days st).0.tokens ≡ st.tokens
unfolding prune_agent_data
prune-tokens env now conn_days stale_days st =
    prune_stale-tokens env now stale_days (prune_old env now conn_days st)
    ∙ prune_old-tokens env now conn_days st
