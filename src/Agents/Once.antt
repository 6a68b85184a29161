-- ===== src/Agents/Once.antt =====
-- An enrollment token works once (backend/internal/db/agents.go, `EnrollAgent`).
use pmacct_suricata_analyzer.Prelude.{
  ℕ, ◌≤◌, ◌≡◌, refl, ◌∙◌, sym, Bool, true, false, ◌||◌, [], ◌∷◌, ◌++◌, String, some, Result, ok,
  err, any, ◌+◌, any-find, find, count_where, Option-cases, inl, inr, if◌then◌else◌, if-either,
}
use pmacct_suricata_analyzer.Agents.Rows.{
  EnrollToken, Agent, Store, Statement, AgentEnv, hash_token, token_is, is_usable, begin, use_token,
  insert_agent, link_token, commit, agent_is,
}
use pmacct_suricata_analyzer.Agents.Store.{
  Machine, EnrollError, enroll_failed, bad_token, enroll_agent, enroll_found, add_agent, new_agent,
}
use pmacct_suricata_analyzer.Agents.Tokens.{spend, any-spend, spend-all, find-unusable, any-there}
use pmacct_suricata_analyzer.Alerts.{failed}
use pmacct_suricata_analyzer.Agents.Steps.{under, Leads}
use pmacct_suricata_analyzer.Agents.Spent.{IsSpent, Leads-IsSpent}

abbrev pub is_ok {ℓ κ} : {E : Type ℓ} {A : Type κ} → Result E A → Bool
is_ok (err e) = false
is_ok (ok a) = true

-- What cannot both be.
both {ℓ} : {A : Type ℓ} → (b : Bool) → b ≡ true → b ≡ false → A
both b t f = absurd (cc (sym t ∙ f))

-- A test that succeeded took its second branch, if the first is an error.
pub if_ok {κ} :
    {E A : Type 0} (P : Store → Type κ) (b : Bool) (p q : Store × Result E A)
    → is_ok p.1 ≡ false
    → (is_ok q.1 ≡ true → P q.0)
    → is_ok (if b then p else q).1 ≡ true
    → P (if b then p else q).0
if_ok P true p q f h good = both (is_ok p.1) good f
if_ok P false p q f h good = h good

-- A hash names one token, as the primary key has it.
abbrev pub IsKeyed : String → Store → Type 0
IsKeyed h st = count_where (token_is h) st.tokens ≤ 1

add_agent-spends :
    (env : AgentEnv) (now : ℕ) (fresh h : String) (t : EnrollToken) (m : Machine) (st : Store)
    → IsKeyed h st
    → find (is_usable now h) st.tokens ≡ some t
    → is_ok (add_agent env now fresh h t m st).1 ≡ true
    → IsSpent h (add_agent env now fresh h t m st).0
unfolding add_agent
add_agent-spends env now fresh h t m st keyed found good =
    let a = new_agent now st.next_agent t.name (hash_token env fresh) m in
    let moved : Store = record st { next_agent = st.next_agent + 1 } in
    if_ok (IsSpent h)
      (any (agent_is a.token_hash) st.agents
        || (env.fails insert_agent || (env.fails link_token || env.fails commit)))
      (moved, err (enroll_failed failed))
      (
        record moved { tokens = spend now h a.id st.tokens; agents = st.agents ++ a ∷ [] },
        ok (a, fresh),
      )
      refl
      (λ _. record {
        there =
            any-spend now h h a.id st.tokens
            ∙ any-there h now st.tokens (any-find (is_usable now h) st.tokens t found);
        spent = spend-all now h a.id st.tokens keyed (any-find (is_usable now h) st.tokens t found);
      })
      good

found_spends :
    (env : AgentEnv) (now : ℕ) (fresh h : String) (m : Machine) (st : Store)
    → IsKeyed h st
    → is_ok (enroll_found env now fresh h m st (find (is_usable now h) st.tokens)).1 ≡ true
    → IsSpent h (enroll_found env now fresh h m st (find (is_usable now h) st.tokens)).0
found_spends env now fresh h m st keyed good =
    elim (Option-cases (find (is_usable now h) st.tokens)) [
      | inl e ↦
          let no : is_ok (enroll_found env now fresh h m st (find (is_usable now h) st.tokens)).1
              ≡ false =
            rw e refl in
          both (is_ok (enroll_found env now fresh h m st (find (is_usable now h) st.tokens)).1) good
            no
      | inr (t, e) ↦ rw e (add_agent-spends env now fresh h t m st keyed e (rw e at good))
    ]

enroll_agent-spends :
    (env : AgentEnv) (now : ℕ) (fresh token : String) (m : Machine) (st : Store)
    → IsKeyed (hash_token env token) st
    → is_ok (enroll_agent env now fresh token m st).1 ≡ true
    → IsSpent (hash_token env token) (enroll_agent env now fresh token m st).0
unfolding enroll_agent
enroll_agent-spends env now fresh token m st keyed good =
    let h = hash_token env token in
    let off = env.fails begin || env.fails use_token in
    let refused : Store × Result EnrollError (Agent × String) = (st, err (enroll_failed failed)) in
    if_ok (IsSpent h) off refused
      (enroll_found env now fresh h m st (find (is_usable now h) st.tokens)) refl
      (found_spends env now fresh h m st keyed) good

spent_refused :
    (env : AgentEnv) (now : ℕ) (fresh token : String) (m : Machine) (u : Store)
    → IsSpent (hash_token env token) u
    → ((enroll_agent env now fresh token m u).0 ≡ u)
      × (is_ok (enroll_agent env now fresh token m u).1 ≡ false)
unfolding enroll_agent
spent_refused env now fresh token m u s =
    rw (find-unusable now (hash_token env token) u.tokens s.spent) (
      if-either
        (λ (r : Store × Result EnrollError (Agent × String)). (r.0 ≡ u) × (is_ok r.1 ≡ false))
        (env.fails begin || env.fails use_token) (u, err (enroll_failed failed)) (u, err bad_token)
        (refl, refl) (refl, refl))

-- An enrollment token whose hash names at most one row, once it was exchanged for an agent's token, is
-- refused ever after, whatever else happens to the agents in between, and the attempt changes
-- nothing.
pub enroll_once :
    (env : AgentEnv) (avoid : String) (f g : Statement → Bool) (now later : ℕ)
    (fresh again token : String) (m n : Machine) (st u : Store)
    → IsKeyed (hash_token env token) st
    → is_ok (enroll_agent (under env f) now fresh token m st).1 ≡ true
    → Leads env avoid (enroll_agent (under env f) now fresh token m st).0 u
    → ((enroll_agent (under env g) later again token n u).0 ≡ u)
      × (is_ok (enroll_agent (under env g) later again token n u).1 ≡ false)
unfolding hash_token
enroll_once env avoid f g now later fresh again token m n st u keyed good leads =
    spent_refused (under env g) later again token n u (
      Leads-IsSpent env avoid (hash_token env token)
        (enroll_agent (under env f) now fresh token m st).0 u leads
        (enroll_agent-spends (under env f) now fresh token m st keyed good))
