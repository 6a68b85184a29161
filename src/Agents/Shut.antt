-- ===== src/Agents/Shut.antt =====
-- An agent that was revoked or deleted stays out (backend/internal/db/agents.go, `RevokeAgent`, and
-- backend/internal/api/agents.go, `agentAuth`).
use pmacct_suricata_analyzer.Prelude.{
  ℕ, zero, suc, ◌+◌, ◌≡◌, refl, Bool, true, false, not, ◌&&◌, ◌||◌, List, [], ◌∷◌, ◌++◌, String,
  Option, none, some, Result, ok, err, str_eq, any, any-append, find, find-eq-none_of_any,
  count_where, update_where, drop_where, arith, if◌then◌else◌, if-either,
}
use pmacct_suricata_analyzer.Alerts.{DbError, failed}
use pmacct_suricata_analyzer.Agents.Checks.{sift}
use pmacct_suricata_analyzer.Agents.Rows.{
  EnrollToken, Agent, Store, Statement, AgentEnv, hash_token, is_usable, is_active, agent_is,
  has_id, begin, use_token, insert_agent, link_token, commit, update_row, revoke_row, touch_row,
  delete_row, prune_agents, read_agent,
}
use pmacct_suricata_analyzer.Agents.Store.{
  Machine, EnrollError, enroll_failed, create_enroll_token, enroll_agent, enroll_found, add_agent,
  new_agent, update_agent, set_agent_auto_update, revoke_agent, delete_agent, prune_agent_data,
  prune_old, prune_stale, delete_where, renamed, is_unrevoked, on_agents, agent_by_token, is_stale,
  used_by,
}
use pmacct_suricata_analyzer.Agents.Reports.{
  touched, touch_agent, insert_endpoint_conns, upsert_program_identities,
}
use pmacct_suricata_analyzer.Agents.Ingest.{Refusal, refused, bearer, found_agent, agent_auth}
use pmacct_suricata_analyzer.Agents.Frames.{insert-agents, upsert-Same, prune_old-agents}
use pmacct_suricata_analyzer.Agents.Once.{is_ok, if_ok}
use pmacct_suricata_analyzer.Agents.Keeps.{agent_events_keeps}
use pmacct_suricata_analyzer.Agents.Steps.{
  under, Does, minted, enrolled, updated, switched, revoked, deleted, pruned, reported, Leads, stay,
  then_does,
}

-- No agent that is not revoked has a token of the hash.
abbrev pub IsShut : String → Store → Type 0
IsShut h st = any (is_active h) st.agents ≡ false

module _ (h : String) where
  any-active_update :
      (p : Agent → Bool) (f : Agent → Agent)
      → ((a : Agent) → is_active h a ≡ false → is_active h (f a) ≡ false)
      → (as' : List Agent) → any (is_active h) as' ≡ false
      → any (is_active h) (update_where p f as') ≡ false
  any-active_update p f k [] e = refl
  any-active_update p f k (a ∷ as') e = ground (arith, k a, any-active_update p f k as')

  any-active_drop :
      (p : Agent → Bool) (as' : List Agent)
      → any (is_active h) as' ≡ false
      → any (is_active h) (drop_where p as') ≡ false
  any-active_drop p [] e = refl
  any-active_drop p (a ∷ as') e = ground (arith, any-active_drop p as')

  on_agents-IsShut :
      (fails : Bool) (p : Agent → Bool) (f : Agent → Agent) (st : Store)
      → ((a : Agent) → is_active h a ≡ false → is_active h (f a) ≡ false)
      → IsShut h st
      → IsShut h (on_agents fails p f st).0
  on_agents-IsShut true p f st k s = s
  on_agents-IsShut false p f st k s = any-active_update p f k st.agents s

  add_agent-IsShut :
      (env : AgentEnv) (now : ℕ) (fresh k : String) (t : EnrollToken) (m : Machine) (st : Store)
      → str_eq (hash_token env fresh) h ≡ false
      → IsShut h st
      → IsShut h (add_agent env now fresh k t m st).0
  unfolding add_agent new_agent
  add_agent-IsShut env now fresh k t m st other s =
      let a = new_agent now st.next_agent t.name (hash_token env fresh) m in
      let moved : Store = record st { next_agent = st.next_agent + 1 } in
      let absent : is_active h a ≡ false = rw other refl in
      if-either (λ (r : Store × Result EnrollError (Agent × String)). IsShut h r.0)
        (any (agent_is a.token_hash) st.agents
          || (env.fails insert_agent || (env.fails link_token || env.fails commit)))
        (moved, err (enroll_failed failed))
        (
          record moved {
            tokens = update_where (is_usable now k) (used_by now a.id) st.tokens;
            agents = st.agents ++ a ∷ [];
          },
          ok (a, fresh),
        )
        s (rw (any-append (is_active h) st.agents (a ∷ []), s, absent) refl)

  found-IsShut :
      (env : AgentEnv) (now : ℕ) (fresh k : String) (m : Machine) (st : Store)
      (o : Option EnrollToken)
      → str_eq (hash_token env fresh) h ≡ false
      → IsShut h st
      → IsShut h (enroll_found env now fresh k m st o).0
  found-IsShut env now fresh k m st none other s = s
  found-IsShut env now fresh k m st (some t) other s =
      add_agent-IsShut env now fresh k t m st other s

  prune_stale-IsShut :
      (env : AgentEnv) (now days : ℕ) (p : Store × Result DbError ℕ)
      → IsShut h p.0
      → IsShut h (prune_stale env now days p).0
  prune_stale-IsShut env now days (st, err e) s = s
  prune_stale-IsShut env now zero (st, ok n) s = s
  prune_stale-IsShut env now (suc days) (st, ok n) s =
      if-either (λ (r : Store × Result DbError (ℕ × ℕ)). IsShut h r.0) (env.fails prune_agents)
        (st, err failed)
        (
          delete_where (is_stale now (suc days)) st,
          ok (n, count_where (is_stale now (suc days)) st.agents),
        )
        s (any-active_drop (is_stale now (suc days)) st.agents s)

  minted-agents :
      (env : AgentEnv) (now : ℕ) (fresh name by' : String) (ttl : ℕ) (st : Store)
      → (create_enroll_token env now fresh name by' ttl st).0.agents ≡ st.agents
  unfolding create_enroll_token
  minted-agents env now fresh name by' ttl st = ground arith

  same-IsShut : (st u : Store) → u.agents ≡ st.agents → IsShut h st → IsShut h u
  same-IsShut st u e s = rw e s

module _ (env : AgentEnv) (h : String) where
  Does-IsShut : (st u : Store) → Does env h st u → IsShut h st → IsShut h u
  unfolding update_agent set_agent_auto_update revoke_agent delete_agent touch_agent touched
      enroll_agent prune_agent_data hash_token
  Does-IsShut _ _ (minted f now fresh name by' ttl st) s =
      same-IsShut h st (create_enroll_token (under env f) now fresh name by' ttl st).0
        (minted-agents h (under env f) now fresh name by' ttl st) s
  Does-IsShut _ _ (enrolled f now fresh token m st other) s =
      let k = hash_token env token in
      if-either (λ (r : Store × Result EnrollError (Agent × String)). IsShut h r.0)
        (f begin || f use_token) (st, err (enroll_failed failed))
        (enroll_found (under env f) now fresh k m st (find (is_usable now k) st.tokens)) s
        (found-IsShut h (under env f) now fresh k m st (find (is_usable now k) st.tokens) other s)
  Does-IsShut _ _ (updated f id name note st) s =
      on_agents-IsShut h (f update_row) (has_id id) (renamed name note) st (λ a e. e) s
  Does-IsShut _ _ (switched f id on st) s =
      on_agents-IsShut h (f update_row) (has_id id) (λ a. record a { auto_update = on }) st
        (λ a e. e) s
  Does-IsShut _ _ (revoked f now id st) s =
      on_agents-IsShut h (f revoke_row) (is_unrevoked id) (λ a. record a { revoked_at = some now })
        st (λ a e. ground arith) s
  Does-IsShut _ _ (deleted f id st) s =
      if-either (λ (r : Store × Result DbError Bool). IsShut h r.0) (f delete_row) (st, err failed)
        (delete_where (has_id id) st, ok (any (has_id id) st.agents)) s
        (any-active_drop h (has_id id) st.agents s)
  Does-IsShut _ _ (pruned f now conn_days stale_days st) s =
      prune_stale-IsShut h (under env f) now stale_days (prune_old (under env f) now conn_days st) (
        same-IsShut h st (prune_old (under env f) now conn_days st).0
          (prune_old-agents (under env f) now conn_days st) s)
  Does-IsShut _ _ (reported f tls builds now req st) s =
      agent_events_keeps (IsShut h) (under env f) now
        (λ id cs v.
          same-IsShut h v (insert_endpoint_conns (under env f) id (sift (under env f) now cs).0 v).0
            (insert-agents (under env f) now id (sift (under env f) now cs).0 v))
        (λ id b v. on_agents-IsShut h (f touch_row) (has_id id) (touched now b) v (λ a e. e))
        (λ id ps v.
          same-IsShut h v (upsert_program_identities (under env f) now id ps v).0
            (upsert-Same (under env f) now id ps v).agents)
        tls builds req st s

  Leads-IsShut : (st u : Store) → Leads env h st u → IsShut h st → IsShut h u
  Leads-IsShut st _ (stay _) s = s
  Leads-IsShut st v (then_does _ u _ l d) s = Does-IsShut u v d (Leads-IsShut st u l s)

-- The hash of the token of another agent.
abbrev pub is_other : String → ℕ → Agent → Bool
is_other h id a = agent_is h a && not (has_id id a)

revoke_all :
    (h : String) (now id : ℕ) (as' : List Agent)
    → any (is_other h id) as' ≡ false
    → any
        (is_active h)
        (update_where (is_unrevoked id) (λ a. record a { revoked_at = some now }) as')
      ≡ false
revoke_all h now id [] e = refl
revoke_all h now id (a ∷ as') e = ground (arith, revoke_all h now id as')

shut_out :
    (env : AgentEnv) (authorization : String) (u : Store)
    → IsShut (hash_token env (bearer env authorization)) u
    → is_ok (agent_auth env authorization u) ≡ false
unfolding agent_auth agent_by_token
shut_out env authorization u s =
    let h = hash_token env (bearer env authorization) in
    rw (find-eq-none_of_any (is_active h) u.agents s) (
      if-either (λ (r : Result Refusal Agent). is_ok r ≡ false)
        (str_eq (bearer env authorization) "") (err (refused 401 "agent token required"))
        (found_agent (if env.fails read_agent then err failed else ok none)) refl
        (if-either (λ (r : Result DbError (Option Agent)). is_ok (found_agent r) ≡ false)
          (env.fails read_agent) (err failed) (ok none) refl refl))

-- After an agent is revoked, no request with its token is let in, whatever else happens to the agents
-- and whichever statements fail, if no other agent has a token of that hash and none that enrolls
-- later is given one.
pub revoked_stays_out :
    (env : AgentEnv) (f g : Statement → Bool) (now id : ℕ) (authorization : String) (st u : Store)
    → any (is_other (hash_token env (bearer env authorization)) id) st.agents ≡ false
    → is_ok (revoke_agent (under env f) now id st).1 ≡ true
    → Leads env
        (hash_token env (bearer env authorization))
        (revoke_agent (under env f) now id st).0
        u
    → is_ok (agent_auth (under env g) authorization u) ≡ false
unfolding revoke_agent bearer hash_token
revoked_stays_out env f g now id authorization st u alone good leads =
    let h = hash_token env (bearer env authorization) in
    let gone : Agent → Agent = λ a. record a { revoked_at = some now } in
    let shut : IsShut h (revoke_agent (under env f) now id st).0 =
      if_ok (IsShut h) (f revoke_row) (st, err failed)
        (
          record st { agents = update_where (is_unrevoked id) gone st.agents },
          ok (any (is_unrevoked id) st.agents),
        )
        refl (λ _. revoke_all h now id st.agents alone) good in
    shut_out (under env g) authorization u
      (Leads-IsShut env h (revoke_agent (under env f) now id st).0 u leads shut)
