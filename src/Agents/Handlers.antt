-- ===== src/Agents/Handlers.antt =====
-- The handlers of the agents' requests (backend/internal/api/agents.go).
use pmacct_suricata_analyzer.Prelude.{
  ℕ, Bool, not, ◌&&◌, ◌||◌, ltb, List, [], ◌∷◌, String, Option, none, some, Result, ok, err, str_eq,
  length, if◌then◌else◌,
}
use pmacct_suricata_analyzer.Prelude.Int.{ℤ}
use pmacct_suricata_analyzer.Agents.Rows.{Agent, Conn, ProgramIdentity, Store, AgentEnv}
use pmacct_suricata_analyzer.Agents.Store.{EnrollError, bad_token, enroll_failed, enroll_agent}
use pmacct_suricata_analyzer.Agents.Reports.{
  Beat, touch_agent, insert_endpoint_conns, upsert_program_identities,
}
use pmacct_suricata_analyzer.Agents.Ingest.{
  Request, Refusal, refused, server_error, allows_transport, no_tls, remote_ip, agent_auth, trunc,
  clean_ips,
}
use pmacct_suricata_analyzer.Agents.Checks.{sift, valid_programs}

-- `enrollRequest`.
pub record EnrollRequest : Type 0 where
  pub enroll_token : String
  pub hostname : String
  pub os : String
  pub arch : String
  pub version : String
  pub ips : List String

-- What is answered to an agent that enrolled.
pub record Enrolled : Type 0 where
  pub agent_id : ℕ
  pub agent_token : String
  pub name : String

abbrev pub enroll_reply :
    Store × Result EnrollError (Agent × String) → Store × Result Refusal Enrolled
enroll_reply (st, ok (a, token)) =
    (st, ok (record { agent_id = a.id; agent_token = token; name = a.name }))
enroll_reply (st, err bad_token) = (st, err (refused 401 "invalid or expired enrollment token"))
enroll_reply (st, err (enroll_failed e)) = (st, err (server_error e))

-- `agentEnroll`.
unfoldable pub agent_enroll :
    AgentEnv → Bool → ℕ → String → Request EnrollRequest → Store → Store × Result Refusal Enrolled
unfolding enroll_agent clean_ips remote_ip trunc
agent_enroll env tls_listens now fresh req st =
    if not (allows_transport tls_listens req.is_tls) then (st, err no_tls) else elim req.body [
      | err _ ↦ (st, err (refused 400 "invalid json body"))
      | ok b ↦ enroll_reply (
          enroll_agent env now fresh b.enroll_token
            (record {
              hostname = trunc env b.hostname 200;
              os = trunc env b.os 40;
              arch = trunc env b.arch 20;
              version = trunc env b.version 40;
              ips = clean_ips env b.ips;
              remote = remote_ip env req.remote_addr;
            })
            st)
    ]

-- `BuildTarget`: "" where there is none.
unfoldable pub build_target : AgentEnv → String → String → String
build_target env os arch =
    if not (str_eq (env.to_lower arch) "x86_64" || str_eq (env.to_lower arch) "amd64")
    then ""
    else if str_eq (env.to_lower os) "linux"
    then "linux-amd64"
    else if str_eq (env.to_lower os) "windows"
    then "windows-amd64"
    else ""

-- `eventsRequest`.
pub record EventsRequest : Type 0 where
  pub version : String
  pub ips : List String
  pub capture : String
  pub dropped : ℤ
  pub conns : List Conn
  pub programs : List ProgramIdentity

-- The answer to a batch.
pub record EventsReply : Type 0 where
  pub accepted : ℕ
  pub rejected : ℕ
  pub programs : Option ℕ
  pub build : Option (String × Bool)

-- The builds that the server hands out: `version_of` is the version of a target, and `allowed` the
-- setting of self-updates.
pub record Builds : Type 0 where
  pub version_of : String → Option String
  pub allowed : Bool

abbrev pub offered : Builds → String → Option String → Bool → Option (String × Bool)
offered builds target none auto = none
offered builds target (some v) auto =
    if str_eq target "" || str_eq v "" then none else some (v, builds.allowed && auto)

-- The offer of a build, and whether the agent may take it.
unfoldable pub build_for : AgentEnv → Builds → Agent → Option (String × Bool)
unfolding build_target
build_for env builds a =
    let target = build_target env a.os a.arch in
    offered builds target (builds.version_of target) a.auto_update

-- The programs of a batch, behind its connections.
unfoldable pub take_programs :
    AgentEnv
    → Builds
    → ℕ
    → Agent
    → List ProgramIdentity
    → ℕ × ℕ
    → Store
    → Store × Result Refusal EventsReply
unfolding upsert_program_identities valid_programs build_for
take_programs env builds now a [] (n, rejected) st = (
  st,
  ok (record {
    accepted = n;
    rejected = rejected;
    programs = none;
    build = build_for env builds a;
  }),
)
take_programs env builds now a (p ∷ ps) (n, rejected) st =
    let (st', res) = upsert_program_identities env now a.id (valid_programs env (p ∷ ps)) st in
    elim res [
      | err e ↦ (st', err (server_error e))
      | ok k ↦ (
        st',
        ok (record {
          accepted = n;
          rejected = rejected;
          programs = some k;
          build = build_for env builds a;
        }),
      )
    ]

-- A batch of an agent that is known.
unfoldable pub take_batch :
    AgentEnv
    → Builds
    → ℕ
    → String
    → Agent
    → EventsRequest
    → Store
    → Store × Result Refusal EventsReply
unfolding sift insert_endpoint_conns touch_agent take_programs clean_ips remote_ip
take_batch env builds now addr a b st =
    let (valid, rejected) = sift env now b.conns in
    let (st', res) = insert_endpoint_conns env a.id valid st in
    elim res [
      | err e ↦ (st', err (server_error e))
      | ok n ↦
          let beat : Beat = record {
            ips = clean_ips env b.ips;
            version = trunc env b.version 40;
            capture = trunc env b.capture 20;
            remote = remote_ip env addr;
            batch = n;
            dropped = b.dropped;
          } in
          let (st'', touched) = touch_agent env now a.id beat st' in
          elim touched [
            | err e ↦ (st'', err (server_error e))
            | ok _ ↦ take_programs env builds now a b.programs (n, rejected) st''
          ]
    ]

-- `maxAgentBatch`.
abbrev pub max_agent_batch : ℕ
max_agent_batch = 20000

-- The body of a request of an agent that is known.
abbrev pub take_body :
    AgentEnv
    → Builds
    → ℕ
    → String
    → Agent
    → Result String EventsRequest
    → Store
    → Store × Result Refusal EventsReply
take_body env builds now addr a (err why) st = (st, err (refused 400 why))
take_body env builds now addr a (ok b) st =
    if ltb max_agent_batch (length b.conns) || ltb 5000 (length b.programs)
    then (st, err (refused 413 "batch too large"))
    else take_batch env builds now addr a b st

-- The request behind `requireAgentTLS` and `agentAuth`.
abbrev pub known_agent :
    AgentEnv
    → Builds
    → ℕ
    → Request EventsRequest
    → Store
    → Result Refusal Agent
    → Store × Result Refusal EventsReply
known_agent env builds now req st (err r) = (st, err r)
known_agent env builds now req st (ok a) = take_body env builds now req.remote_addr a req.body st

-- `agentEvents`.
unfoldable pub agent_events :
    AgentEnv
    → Bool
    → Builds
    → ℕ
    → Request EventsRequest
    → Store
    → Store × Result Refusal EventsReply
unfolding agent_auth take_batch
agent_events env tls_listens builds now req st =
    if not (allows_transport tls_listens req.is_tls)
    then (st, err no_tls)
    else known_agent env builds now req st (agent_auth env req.authorization st)
