-- ===== src/Agents/Steps.antt =====
-- What happens to the agents, in any order (backend/internal/db/agents.go and api/agents.go). Which
-- statements fail may differ from step to step.
use pmacct_suricata_analyzer.Prelude.{ℕ, ◌≡◌, Bool, false, String, str_eq}
use pmacct_suricata_analyzer.Agents.Rows.{Store, Statement, AgentEnv, hash_token}
use pmacct_suricata_analyzer.Agents.Store.{
  Machine, create_enroll_token, enroll_agent, update_agent, set_agent_auto_update, revoke_agent,
  delete_agent, prune_agent_data,
}
use pmacct_suricata_analyzer.Agents.Ingest.{Request}
use pmacct_suricata_analyzer.Agents.Handlers.{EventsRequest, Builds, agent_events}

abbrev pub under : AgentEnv → (Statement → Bool) → AgentEnv
under env fails = record env { fails = fails }

-- A step; the token of an agent that enrolls is random, and has another hash than `avoid`.
pub data Does (env : AgentEnv) (avoid : String) : Store → Store → Type 0 where
  minted :
      (f : Statement → Bool) (now : ℕ) (fresh name created_by : String) (ttl : ℕ) (st : Store)
      → Does env avoid st (create_enroll_token (under env f) now fresh name created_by ttl st).0
  enrolled :
      (f : Statement → Bool) (now : ℕ) (fresh token : String) (m : Machine) (st : Store)
      → str_eq (hash_token env fresh) avoid ≡ false
      → Does env avoid st (enroll_agent (under env f) now fresh token m st).0
  updated :
      (f : Statement → Bool) (id : ℕ) (name note : String) (st : Store)
      → Does env avoid st (update_agent (under env f) id name note st).0
  switched :
      (f : Statement → Bool) (id : ℕ) (on : Bool) (st : Store)
      → Does env avoid st (set_agent_auto_update (under env f) id on st).0
  revoked :
      (f : Statement → Bool) (now id : ℕ) (st : Store)
      → Does env avoid st (revoke_agent (under env f) now id st).0
  deleted :
      (f : Statement → Bool) (id : ℕ) (st : Store)
      → Does env avoid st (delete_agent (under env f) id st).0
  pruned :
      (f : Statement → Bool) (now conn_days stale_days : ℕ) (st : Store)
      → Does env avoid st (prune_agent_data (under env f) now conn_days stale_days st).0
  reported :
      (f : Statement → Bool) (tls : Bool) (builds : Builds) (now : ℕ) (req : Request EventsRequest)
      (st : Store)
      → Does env avoid st (agent_events (under env f) tls builds now req st).0

pub data Leads (env : AgentEnv) (avoid : String) : Store → Store → Type 0 where
  stay : (st : Store) → Leads env avoid st st
  then_does : (st u v : Store) → Leads env avoid st u → Does env avoid u v → Leads env avoid st v
