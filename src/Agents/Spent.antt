-- ===== src/Agents/Spent.antt =====
-- A token that was used stays used, whatever happens (backend/internal/db/agents.go).
use pmacct_suricata_analyzer.Prelude.{
  ℕ, ◌≡◌, ◌∙◌, Bool, true, false, ◌||◌, [], ◌∷◌, ◌++◌, String, none, some, Result, ok, err, any,
  trim_space, ◌+◌, find, Bool-cases, Option-cases, inl, inr, if-either,
}
use pmacct_suricata_analyzer.Agents.Checks.{sift}
use pmacct_suricata_analyzer.Agents.Rows.{
  EnrollToken, Agent, Store, AgentEnv, hash_token, token_is, is_unused, is_usable, insert_token,
  begin, use_token, update_row, revoke_row, touch_row, has_id,
}
use pmacct_suricata_analyzer.Agents.Store.{
  Machine, EnrollError, enroll_failed, bad_token, create_enroll_token, enroll_agent, add_agent,
  update_agent, set_agent_auto_update, revoke_agent, delete_agent, renamed, is_unrevoked,
}
use pmacct_suricata_analyzer.Agents.Reports.{touched, touch_agent}
use pmacct_suricata_analyzer.Agents.Tokens.{any-spend, spend_unused, snoc_there, snoc_unused}
use pmacct_suricata_analyzer.Alerts.{DbError, failed}
use pmacct_suricata_analyzer.Agents.Frames.{
  on_agents-tokens, prune-tokens, insert-tokens, upsert-Same,
}
use pmacct_suricata_analyzer.Agents.Keeps.{agent_events_keeps}
use pmacct_suricata_analyzer.Agents.Steps.{
  under, Does, minted, enrolled, updated, switched, revoked, deleted, pruned, reported, Leads, stay,
  then_does,
}

-- The tokens of a hash are there, and all used.
pub record IsSpent (h : String) (st : Store) : Type 0 where
  pub there : any (token_is h) st.tokens ≡ true
  pub spent : any (is_unused h) st.tokens ≡ false

-- A store with the same tokens.
same-IsSpent : (h : String) (st u : Store) → u.tokens ≡ st.tokens → IsSpent h st → IsSpent h u
same-IsSpent h st u e s = record { there = rw e s.there; spent = rw e s.spent }

module _ (env : AgentEnv) (h : String) where
  minted-IsSpent :
      (now : ℕ) (fresh name by' : String) (ttl : ℕ) (st : Store)
      → IsSpent h st
      → IsSpent h (create_enroll_token env now fresh name by' ttl st).0
  unfolding create_enroll_token
  minted-IsSpent now fresh name by' ttl st s =
      let t : EnrollToken = record {
        token_hash = hash_token env fresh;
        name = trim_space name;
        created_by = by';
        expires_at = now + ttl;
        used_at = none;
        used_by_agent = none;
      } in
      elim (Bool-cases (any (token_is t.token_hash) st.tokens)) [
        | inl e ↦ rw (e, create_enroll_token) s
        | inr e ↦
            rw (e, create_enroll_token)
              (if-either (λ (r : Store × Result DbError (String × ℕ)). IsSpent h r.0)
                (env.fails insert_token) (st, err failed)
                (record st { tokens = st.tokens ++ t ∷ [] }, ok (fresh, now + ttl)) s
                (record {
                  there = snoc_there h t st.tokens s.there;
                  spent = snoc_unused h t st.tokens s.there e s.spent;
                }))
      ]

  add_agent-IsSpent :
      (now : ℕ) (fresh k : String) (t : EnrollToken) (m : Machine) (st : Store)
      → IsSpent h st
      → IsSpent h (add_agent env now fresh k t m st).0
  unfolding add_agent
  add_agent-IsSpent now fresh k t m st s =
      if-either (λ (r : Store × Result EnrollError (Agent × String)). IsSpent h r.0) _ _ _
        (record { there = s.there; spent = s.spent })
        (record {
          there = any-spend now h k st.next_agent st.tokens ∙ s.there;
          spent = spend_unused now h k st.next_agent st.tokens s.spent;
        })

  enrolled-IsSpent :
      (now : ℕ) (fresh token : String) (m : Machine) (st : Store)
      → IsSpent h st
      → IsSpent h (enroll_agent env now fresh token m st).0
  unfolding enroll_agent
  enrolled-IsSpent now fresh token m st s =
      elim (Option-cases (find (is_usable now (hash_token env token)) st.tokens)) [
        | inl e ↦
            rw (e, enroll_agent)
              (if-either (λ (r : Store × Result EnrollError (Agent × String)). IsSpent h r.0)
                (env.fails begin || env.fails use_token) (st, err (enroll_failed failed))
                (st, err bad_token) s s)
        | inr (t, e) ↦
            rw (e, enroll_agent)
              (if-either (λ (r : Store × Result EnrollError (Agent × String)). IsSpent h r.0)
                (env.fails begin || env.fails use_token) (st, err (enroll_failed failed))
                (add_agent env now fresh (hash_token env token) t m st) s
                (add_agent-IsSpent now fresh (hash_token env token) t m st s))
      ]

module _ (env : AgentEnv) (avoid h : String) where
  Does-IsSpent : (st u : Store) → Does env avoid st u → IsSpent h st → IsSpent h u
  unfolding update_agent set_agent_auto_update revoke_agent delete_agent touch_agent
  Does-IsSpent _ _ (minted f now fresh name by' ttl st) s =
      minted-IsSpent (under env f) h now fresh name by' ttl st s
  Does-IsSpent _ _ (enrolled f now fresh token m st _) s =
      enrolled-IsSpent (under env f) h now fresh token m st s
  Does-IsSpent _ _ (updated f id name note st) s =
      same-IsSpent h st (update_agent (under env f) id name note st).0
        (on_agents-tokens (f update_row) (has_id id) (renamed name note) st) s
  Does-IsSpent _ _ (switched f id on st) s =
      same-IsSpent h st (set_agent_auto_update (under env f) id on st).0
        (on_agents-tokens (f update_row) (has_id id) (λ a. record a { auto_update = on }) st) s
  Does-IsSpent _ _ (revoked f now id st) s =
      same-IsSpent h st (revoke_agent (under env f) now id st).0
        (on_agents-tokens (f revoke_row) (is_unrevoked id) (λ a. record a { revoked_at = some now })
          st)
        s
  Does-IsSpent _ _ (deleted f id st) s =
      if-either (λ (r : Store × Result DbError Bool). IsSpent h r.0) _ _ _ s
        (record { there = s.there; spent = s.spent })
  Does-IsSpent _ _ (pruned f now conn_days stale_days st) s =
      same-IsSpent h st _ (prune-tokens (under env f) now conn_days stale_days st) s
  Does-IsSpent _ _ (reported f tls builds now req st) s =
      agent_events_keeps (IsSpent h) (under env f) now
        (λ id cs v.
          same-IsSpent h v _ (insert-tokens (under env f) now id (sift (under env f) now cs).0 v))
        (λ id b v.
          same-IsSpent h v (touch_agent (under env f) now id b v).0
            (on_agents-tokens (f touch_row) (has_id id) (touched now b) v))
        (λ id ps v. same-IsSpent h v _ (upsert-Same (under env f) now id ps v).tokens) tls builds
        req st s

  pub Leads-IsSpent : (st u : Store) → Leads env avoid st u → IsSpent h st → IsSpent h u
  Leads-IsSpent st _ (stay _) s = s
  Leads-IsSpent st v (then_does _ u _ l d) s = Does-IsSpent u v d (Leads-IsSpent st u l s)
