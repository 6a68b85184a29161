-- ===== src/Agents/Admin.antt =====
-- The administrator's requests on agents (backend/internal/api/agents.go).
use pmacct_suricata_analyzer.Prelude.{
  ℕ, Bool, true, false, String, Option, none, some, Result, ok, err, str_eq, if◌then◌else◌,
}
use pmacct_suricata_analyzer.Alerts.{DbError}
use pmacct_suricata_analyzer.Agents.Rows.{Store, AgentEnv}
use pmacct_suricata_analyzer.Agents.Store.{
  create_enroll_token, update_agent, set_agent_auto_update, revoke_agent, delete_agent, day,
}
use pmacct_suricata_analyzer.Agents.Ingest.{Refusal, refused, server_error}

-- The answer of an operation that finds its agent, or does not.
abbrev pub found_or : String → Store × Result DbError Bool → Store × Result Refusal (Unit {0})
found_or missing (st, err e) = (st, err (server_error e))
found_or missing (st, ok false) = (st, err (refused 404 missing))
found_or missing (st, ok true) = (st, ok tt)

-- `agentAdminAction`; an id that is not a number is `none`.
unfoldable pub agent_admin_action :
    AgentEnv → ℕ → Option ℕ → String → Store → Store × Result Refusal (Unit {0})
unfolding revoke_agent set_agent_auto_update
agent_admin_action env now none action st = (st, err (refused 400 "bad id"))
agent_admin_action env now (some id) action st =
    if str_eq action "revoke"
    then found_or "no such agent (or already revoked)" (revoke_agent env now id st)
    else if str_eq action "autoupdate-on"
    then found_or "no such agent (or already revoked)" (set_agent_auto_update env id true st)
    else if str_eq action "autoupdate-off"
    then found_or "no such agent (or already revoked)" (set_agent_auto_update env id false st)
    else (st, err (refused 400 "action must be revoke, autoupdate-on or autoupdate-off"))

-- `deleteAgent`.
unfoldable pub delete_agent_request :
    AgentEnv → Option ℕ → Store → Store × Result Refusal (Unit {0})
unfolding delete_agent
delete_agent_request env none st = (st, err (refused 400 "bad id"))
delete_agent_request env (some id) st = found_or "no such agent" (delete_agent env id st)

-- `updateAgent`, with the name and the note of the body.
unfoldable pub update_agent_request :
    AgentEnv → Option ℕ → Option (String × String) → Store → Store × Result Refusal (Unit {0})
unfolding update_agent
update_agent_request env none body st = (st, err (refused 400 "bad id"))
update_agent_request env (some id) none st = (st, err (refused 400 "invalid json body"))
update_agent_request env (some id) (some (name, note)) st =
    found_or "no such agent" (update_agent env id name note st)

-- `enrollTokenTTL`.
abbrev pub enroll_token_ttl : ℕ
enroll_token_ttl = day

abbrev pub token_reply : Store × Result DbError (String × ℕ) → Store × Result Refusal (String × ℕ)
token_reply (st, err e) = (st, err (server_error e))
token_reply (st, ok minted) = (st, ok minted)

-- `createEnrollToken`: the token and when it expires.
unfoldable pub create_enroll_token_request :
    AgentEnv → ℕ → String → String → String → Store → Store × Result Refusal (String × ℕ)
unfolding create_enroll_token
create_enroll_token_request env now fresh name created_by st =
    token_reply (create_enroll_token env now fresh name created_by enroll_token_ttl st)
