-- ===== src/Agents/Store.antt =====
-- The statements on agents (backend/internal/db/agents.go).
use pmacct_suricata_analyzer.Prelude.{
  ℕ, zero, suc, ◌+◌, ◌*◌, Bool, true, not, ◌&&◌, ◌||◌, ltb, List, [], ◌∷◌, ◌++◌, String, Option,
  none, some, Result, ok, err, is_some, str_eq, any, find, update_where, drop_where, count_where,
  trim_space, if◌then◌else◌,
}
use pmacct_suricata_analyzer.Prelude.Int.{pos}
use pmacct_suricata_analyzer.Alerts.{DbError, failed}
use pmacct_suricata_analyzer.Agents.Rows.{
  EnrollToken, Agent, ConnRow, Store, insert_token, use_token, insert_agent, link_token, begin,
  commit, read_agent, update_row, revoke_row, delete_row, prune_conns, prune_agents, AgentEnv,
  hash_token, token_is, is_usable, agent_is, is_active, has_id,
}

-- `CreateEnrollToken`; `fresh` is the random token.
unfoldable pub create_enroll_token :
    AgentEnv → ℕ → String → String → String → ℕ → Store → Store × Result DbError (String × ℕ)
unfolding hash_token
create_enroll_token env now fresh name created_by ttl st =
    let h = hash_token env fresh in
    if any (token_is h) st.tokens || env.fails insert_token then (st, err failed) else (
      record st {
        tokens =
            st.tokens
            ++ record {
              token_hash = h;
              name = trim_space name;
              created_by = created_by;
              expires_at = now + ttl;
              used_at = none;
              used_by_agent = none;
            }
              ∷ [];
      },
      ok (fresh, now + ttl),
    )

-- `ErrEnrollToken`, or an error of the database.
pub data EnrollError : Type 0 where
  bad_token : EnrollError
  enroll_failed : DbError → EnrollError

-- What an agent says of itself when it enrolls, and the address that it comes from.
pub record Machine : Type 0 where
  pub hostname : String
  pub os : String
  pub arch : String
  pub version : String
  pub ips : List String
  pub remote : String

abbrev pub or_default : String → String → String
or_default s d = if str_eq s "" then d else s

abbrev pub unless_empty : String → Option String
unless_empty s = if str_eq s "" then none else some s

unfoldable pub new_agent : ℕ → ℕ → String → String → Machine → Agent
new_agent now id name h m = record {
  id = id;
  name = or_default (or_default name m.hostname) "agent";
  hostname = m.hostname;
  os = m.os;
  arch = m.arch;
  version = m.version;
  token_hash = h;
  ips = m.ips;
  capture = "";
  enrolled_at = now;
  last_seen = some now;
  last_ip = unless_empty m.remote;
  events_total = 0;
  last_batch = 0;
  dropped = pos 0;
  revoked_at = none;
  note = "";
  auto_update = true;
}

abbrev pub used_by : ℕ → ℕ → EnrollToken → EnrollToken
used_by now id t = record t { used_at = some now; used_by_agent = some id }

-- The transaction of `EnrollAgent` behind the consumed token: `fresh` is the random token of the
-- agent. What fails is rolled back, but not the sequence.
unfoldable pub add_agent :
    AgentEnv
    → ℕ
    → String
    → String
    → EnrollToken
    → Machine
    → Store
    → Store × Result EnrollError (Agent × String)
unfolding hash_token new_agent
add_agent env now fresh h t m st =
    let a = new_agent now st.next_agent t.name (hash_token env fresh) m in
    let moved = record st { next_agent = st.next_agent + 1 } in
    if any (agent_is a.token_hash) st.agents
      || (env.fails insert_agent || (env.fails link_token || env.fails commit))
    then (moved, err (enroll_failed failed))
    else (
      record moved {
        tokens = update_where (is_usable now h) (used_by now a.id) st.tokens;
        agents = st.agents ++ a ∷ [];
      },
      ok (a, fresh),
    )

-- The token that was found, or none.
abbrev pub enroll_found :
    AgentEnv
    → ℕ
    → String
    → String
    → Machine
    → Store
    → Option EnrollToken
    → Store × Result EnrollError (Agent × String)
enroll_found env now fresh h m st none = (st, err bad_token)
enroll_found env now fresh h m st (some t) = add_agent env now fresh h t m st

-- `EnrollAgent`.
unfoldable pub enroll_agent :
    AgentEnv → ℕ → String → String → Machine → Store → Store × Result EnrollError (Agent × String)
unfolding add_agent hash_token
enroll_agent env now fresh token m st =
    if env.fails begin || env.fails use_token
    then (st, err (enroll_failed failed))
    else enroll_found env now fresh (hash_token env token) m st
        (find (is_usable now (hash_token env token)) st.tokens)

-- `AgentByToken`.
unfoldable pub agent_by_token : AgentEnv → String → Store → Result DbError (Option Agent)
unfolding hash_token
agent_by_token env token st =
    if env.fails read_agent
    then err failed
    else ok (find (is_active (hash_token env token)) st.agents)

-- An update of the rows of one id, and whether it found one.
abbrev pub on_agents : Bool → (Agent → Bool) → (Agent → Agent) → Store → Store × Result DbError Bool
on_agents fails p f st =
    if fails
    then (st, err failed)
    else (record st { agents = update_where p f st.agents }, ok (any p st.agents))

abbrev pub renamed : String → String → Agent → Agent
renamed name note a = record a {
  name = or_default (trim_space name) a.name;
  note = trim_space note;
}

-- `UpdateAgent`; the answer says whether there is the agent.
unfoldable pub update_agent : AgentEnv → ℕ → String → String → Store → Store × Result DbError Bool
update_agent env id name note st =
    on_agents (env.fails update_row) (has_id id) (renamed name note) st

-- `SetAgentAutoUpdate`.
unfoldable pub set_agent_auto_update : AgentEnv → ℕ → Bool → Store → Store × Result DbError Bool
set_agent_auto_update env id on st =
    on_agents (env.fails update_row) (has_id id) (λ a. record a { auto_update = on }) st

abbrev pub is_unrevoked : ℕ → Agent → Bool
is_unrevoked id a = has_id id a && not (is_some a.revoked_at)

-- `RevokeAgent`.
unfoldable pub revoke_agent : AgentEnv → ℕ → ℕ → Store → Store × Result DbError Bool
revoke_agent env now id st =
    on_agents (env.fails revoke_row) (is_unrevoked id) (λ a. record a { revoked_at = some now }) st

-- `DELETE FROM agents`, with what hangs on the rows that go.
abbrev pub delete_where : (Agent → Bool) → Store → Store
delete_where p st =
    let gone : ℕ → Bool = λ id. any (λ (a : Agent). p a && has_id id a) st.agents in
    record st {
      agents = drop_where p st.agents;
      conns = drop_where (λ r. gone r.agent_id) st.conns;
      programs = drop_where (λ r. gone r.agent_id) st.programs;
    }

-- `DeleteAgent`.
unfoldable pub delete_agent : AgentEnv → ℕ → Store → Store × Result DbError Bool
delete_agent env id st =
    if env.fails delete_row
    then (st, err failed)
    else (delete_where (has_id id) st, ok (any (has_id id) st.agents))

-- `COALESCE(last_seen, enrolled_at)`.
abbrev pub seen_at : Agent → ℕ
seen_at a = elim a.last_seen [ none ↦ a.enrolled_at | some t ↦ t ]

abbrev pub day : ℕ
day = 24 * 3_600_000_000_000

abbrev pub is_stale : ℕ → ℕ → Agent → Bool
is_stale now days a = ltb (seen_at a + days * day) now

abbrev pub is_old : ℕ → ℕ → ConnRow → Bool
is_old now days r = ltb (r.conn.minute + days * day) now

-- `PruneEndpointConns`, where there is a number of days.
abbrev pub prune_old : AgentEnv → ℕ → ℕ → Store → Store × Result DbError ℕ
prune_old env now zero st = (st, ok 0)
prune_old env now (suc days) st = if env.fails prune_conns then (st, err failed) else (
  record st { conns = drop_where (is_old now (suc days)) st.conns },
  ok (count_where (is_old now (suc days)) st.conns),
)

-- The stale agents, behind the rows that were pruned.
abbrev pub prune_stale :
    AgentEnv → ℕ → ℕ → Store × Result DbError ℕ → Store × Result DbError (ℕ × ℕ)
prune_stale env now days (st, err e) = (st, err e)
prune_stale env now zero (st, ok n) = (st, ok (n, 0))
prune_stale env now (suc days) (st, ok n) = if env.fails prune_agents then (st, err failed) else (
  delete_where (is_stale now (suc days)) st,
  ok (n, count_where (is_stale now (suc days)) st.agents),
)

-- `PruneAgentData`: how many rows and how many agents went.
unfoldable pub prune_agent_data : AgentEnv → ℕ → ℕ → ℕ → Store → Store × Result DbError (ℕ × ℕ)
prune_agent_data env now conn_days stale_days st =
    prune_stale env now stale_days (prune_old env now conn_days st)
