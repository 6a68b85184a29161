-- ===== src/Agents/Ingest.antt =====
-- The agents' requests (backend/internal/api/agents.go).
use pmacct_suricata_analyzer.Prelude.{
  ℕ, zero, suc, Bool, not, ◌&&◌, ◌||◌, ltb, List, [], ◌∷◌, String, Option, none, some, Result, ok,
  err, str_eq, trim_space, has_prefix, if◌then◌else◌,
}
use pmacct_suricata_analyzer.Alerts.{DbError}
use pmacct_suricata_analyzer.Suricata.Lines.{drop_text}
use pmacct_suricata_analyzer.Agents.Rows.{Agent, Store, AgentEnv}
use pmacct_suricata_analyzer.Agents.Store.{agent_by_token}

-- A request; a body that cannot be read or decoded is its error.
pub record Request {ℓ} (Body : Type ℓ) : Type ℓ where
  pub authorization : String
  pub remote_addr : String
  pub is_tls : Bool
  pub body : Result String Body

-- A refusal, by its status and its message; `server_error` is what `fail` writes.
pub data Refusal : Type 0 where
  refused : ℕ → String → Refusal
  server_error : DbError → Refusal

-- `requireAgentTLS`; `tls_listens` says that a TLS listener is configured.
abbrev pub allows_transport : Bool → Bool → Bool
allows_transport tls_listens is_tls = not (tls_listens && not is_tls)

abbrev pub no_tls : Refusal
no_tls = refused 403 "agents must use the https listener"

-- `bearer`.
unfoldable pub bearer : AgentEnv → String → String
unfolding drop_text
bearer env h = if has_prefix (env.to_lower h) "bearer " then trim_space (drop_text 7 h) else ""

abbrev pub host_part : String → Option String → String
host_part addr none = addr
host_part addr (some h) = h

abbrev pub or_empty : Option String → String
or_empty none = ""
or_empty (some a) = a

-- `remoteIP`.
unfoldable pub remote_ip : AgentEnv → String → String
remote_ip env addr = or_empty (env.unmapped (host_part addr (env.split_host addr)))

-- The answer of `AgentByToken`, as `agentAuth` reads it.
abbrev pub found_agent : Result DbError (Option Agent) → Result Refusal Agent
found_agent (err e) = err (server_error e)
found_agent (ok none) = err (refused 401 "unknown or revoked agent token")
found_agent (ok (some a)) = ok a

-- `agentAuth`.
unfoldable pub agent_auth : AgentEnv → String → Store → Result Refusal Agent
unfolding bearer agent_by_token
agent_auth env authorization st =
    if str_eq (bearer env authorization) ""
    then err (refused 401 "agent token required")
    else found_agent (agent_by_token env (bearer env authorization) st)

-- `trunc`.
unfoldable pub trunc : AgentEnv → String → ℕ → String
trunc env s n =
    if ltb n (env.byte_length (trim_space s))
    then env.byte_prefix n (trim_space s)
    else trim_space s

-- `cleanIPs`: `room` is how many more addresses are taken, and is not 0 where the loop begins.
unfoldable pub clean_ips_in : AgentEnv → ℕ → List String → List String
clean_ips_in env zero ips = []
clean_ips_in env (suc room) [] = []
clean_ips_in env (suc room) (s ∷ ips) =
    let without = clean_ips_in env (suc room) ips in
    let behind = clean_ips_in env room ips in
    elim (env.unmapped (trim_space s)) [
      | none ↦ without
      | some a ↦
          if env.is_loopback (trim_space s) || env.is_link_local (trim_space s)
          then without
          else a ∷ behind
    ]

unfoldable pub clean_ips : AgentEnv → List String → List String
unfolding clean_ips_in
clean_ips env ips = clean_ips_in env 16 ips
