-- ===== src/Auth/Lockout.antt =====
-- What a login needs and what a failed one costs (backend/internal/auth/auth.go, `Login` and
-- `maybeLock`).
use pmacct_suricata_analyzer.Prelude.{
  ℕ, ◌≡◌, refl, ◌∙◌, Bool, true, false, not, ◌&&◌, ◌||◌, String, Option, none, some, Result, ok,
  err, inl, inr, ◌⊎◌, arith, if◌then◌else◌, if-either, if-split, str_eq, eq_iff, any, Bool-cases,
  Option-cases, ap,
}
use pmacct_suricata_analyzer.Prelude.Int.{ℤ}
use pmacct_suricata_analyzer.Auth.Rows.{User, Store}
use pmacct_suricata_analyzer.Auth.Accounts.{
  user_by_name, has_user_id, has_token, create_session, insert_session, record_login,
}
use pmacct_suricata_analyzer.Auth.Attempts.{record_attempt, allows, has_net, auto_block}
use pmacct_suricata_analyzer.Auth.Login.{
  Setup, LoginError, db_failed, LoginResult, try_record, hash_of, too_many, maybe_lock, admit,
  check_password, refuse, try_record_login, login,
}

-- The part of the store that a refusal leaves.
pub record SameAccounts (st st' : Store) : Type 0 where
  pub users : st'.users ≡ st.users
  pub sessions : st'.sessions ≡ st.sessions

module _ (env : Setup) (now : ℕ) (ip : String) where
  try_record-SameAccounts :
      (username : String) (success : Bool) (reason agent : String) (st : Store)
      → SameAccounts st (try_record env now ip username success reason agent st)
  try_record-SameAccounts username success reason agent st =
      if-either (SameAccounts st) env.record_fails _ _ record { users = refl; sessions = refl }
        (unfold record_attempt in record { users = refl; sessions = refl })

  auto_block-SameAccounts :
      (lockout : ℤ) (st : Store) → SameAccounts st (auto_block env.addresses now ip lockout st)
  unfolding auto_block
  auto_block-SameAccounts lockout st =
      if-either (SameAccounts st) (any (allows env.addresses ip) st.ip_access) _ _
        record { users = refl; sessions = refl }
        (if-either (SameAccounts st) (any (has_net (env.addresses.net_of ip)) st.ip_access) _ _
          record { users = refl; sessions = refl } record { users = refl; sessions = refl })

  maybe_lock-SameAccounts : (st : Store) → SameAccounts st (maybe_lock env now ip st)
  unfolding maybe_lock
  maybe_lock-SameAccounts st =
      if-either (SameAccounts st) (str_eq ip "" || env.lock_failures_fails) _ _
        record { users = refl; sessions = refl }
        (if-either (SameAccounts st) (too_many env now ip st) _ _
          (if-either (SameAccounts st) env.block_fails _ _ record { users = refl; sessions = refl }
            (auto_block-SameAccounts env.login_lockout st))
          record { users = refl; sessions = refl })

SameAccounts-trans : {a b c : Store} → SameAccounts a b → SameAccounts b c → SameAccounts a c
SameAccounts-trans h k = record { users = k.users ∙ h.users; sessions = k.sessions ∙ h.sessions }

module _ (env : Setup) (now : ℕ) (ip username password agent : String) (st : Store) where
  -- The login of an account with its password, from an address that is not locked out.
  pub record IsAdmitted (st' : Store) (res : LoginResult) : Type 0 where
    pub known : user_by_name username st ≡ some res.user
    pub correct : env.compare res.user.password_hash password ≡ true
    pub enabled : res.user.disabled ≡ false
    pub gate : (ip ≡ "") ⊎ (too_many env now ip st ≡ false)
    pub token : res.token ≡ env.token
    pub fresh : any (has_token env.token) st.sessions ≡ false
    pub session :
        st'.sessions
        ≡ (insert_session now env.token res.user.id env.session_ttl ip agent st).sessions

  abbrev pub IsAnswer : Store × Result LoginError LoginResult → Type 0
  IsAnswer (st', err _) = SameAccounts st st'
  IsAnswer (st', ok res) = IsAdmitted st' res

  try_record_login-sessions :
      (i : ℕ) (s : Store) → (try_record_login env now i ip s).sessions ≡ s.sessions
  try_record_login-sessions i s =
      if-either (λ (u : Store). u.sessions ≡ s.sessions) env.record_login_fails _ _ refl
        (unfold record_login in refl)

  refuse-IsAnswer : IsAnswer (refuse env now ip username agent st)
  refuse-IsAnswer =
      SameAccounts-trans
        (try_record-SameAccounts env now ip username false "bad_credentials" agent st)
        (maybe_lock-SameAccounts env now ip _)

  created_session :
      (i : ℕ) {s : Store}
      → create_session now env.token i env.session_ttl ip agent st ≡ some s
      → (any (has_token env.token) st.sessions ≡ false)
        × (s ≡ insert_session now env.token i env.session_ttl ip agent st)
  unfolding create_session
  created_session i e =
      elim (Bool-cases
        (any (has_token env.token) st.sessions || not (any (has_user_id i) st.users))) [
          | inl k ↦ cc
          | inr k ↦ (ground arith, cc)
        ]

  create-IsAnswer :
      (u : User)
      → user_by_name username st ≡ some u
      → env.compare u.password_hash password ≡ true
      → u.disabled ≡ false
      → (ip ≡ "") ⊎ (too_many env now ip st ≡ false)
      → IsAnswer (elim (create_session now env.token u.id env.session_ttl ip agent st) [
        | none ↦ (st, err db_failed)
        | some st' ↦ (
          try_record_login env now u.id ip (try_record env now ip username true "" agent st'),
          ok (record { user = u; token = env.token }),
        )
      ])
  create-IsAnswer u known matches enabled gate =
      elim (Option-cases (create_session now env.token u.id env.session_ttl ip agent st)) [
        | inl e ↦ rw e record { users = refl; sessions = refl }
        | inr (s, e) ↦
            let (fresh, row) = created_session u.id e in
            rw e record {
              known = known;
              correct = matches;
              enabled = enabled;
              gate = gate;
              token = refl;
              fresh = fresh;
              session =
                  try_record_login-sessions u.id _
                  ∙ ((try_record-SameAccounts env now ip username true "" agent s).sessions
                      ∙ ap (λ (x : Store). x.sessions) row);
            }
      ]

  admit-IsAnswer :
      (u : User)
      → user_by_name username st ≡ some u
      → env.compare u.password_hash password ≡ true
      → (ip ≡ "") ⊎ (too_many env now ip st ≡ false)
      → IsAnswer (admit env now ip username agent u st)
  unfolding admit
  admit-IsAnswer u known matches gate =
      if-split IsAnswer u.disabled _ _
        (λ _. try_record-SameAccounts env now ip username false "disabled" agent st)
        (λ enabled.
          if-split IsAnswer env.session_fails _ _ (λ _. record { users = refl; sessions = refl })
            (λ _. create-IsAnswer u known matches enabled gate))

  check_password-IsAnswer :
      (ip ≡ "") ⊎ (too_many env now ip st ≡ false)
      → IsAnswer (check_password env now ip username password agent st)
  unfolding check_password
  check_password-IsAnswer gate =
      if-split IsAnswer env.user_fails _ _ (λ _. record { users = refl; sessions = refl })
        (λ _. by_user (user_by_name username st) refl)
    where
      by_user :
          (o : Option User)
          → user_by_name username st ≡ o
          → IsAnswer (
              let matches = env.compare (hash_of env o) password in
              elim o [
                | none ↦ refuse env now ip username agent st
                | some u ↦
                    if not matches
                    then refuse env now ip username agent st
                    else admit env now ip username agent u st
              ])
      by_user none e = refuse-IsAnswer
      by_user (some u) e =
          if-split IsAnswer (not (env.compare u.password_hash password)) _ _ (λ _. refuse-IsAnswer)
            (λ m. admit-IsAnswer u e (ground arith) gate)

  -- A login that fails, for any reason, leaves the accounts and the sessions as they were; one that
  -- succeeds is of an enabled account of that name whose hash matches the password, from an unknown
  -- address or one with fewer recent failures than the limit, and adds just one session, of that
  -- account and the new token, which no session had.
  pub login-IsAnswer : IsAnswer (login env now ip username password agent st)
  unfolding login
  login-IsAnswer =
      if-split IsAnswer (not (str_eq ip "") && env.failures_fails) _ _
        (λ _. record { users = refl; sessions = refl })
        (λ _.
          if-split IsAnswer (not (str_eq ip "") && too_many env now ip st) _ _
            (λ _.
              SameAccounts-trans
                (if-either (SameAccounts st) env.block_fails _ _
                  record { users = refl; sessions = refl }
                  (auto_block-SameAccounts env now ip env.login_lockout st))
                (try_record-SameAccounts env now ip username false "locked_out" agent _))
            (λ t. check_password-IsAnswer (open_gate (str_eq ip "") refl t)))
    where
      open_gate :
          (unknown : Bool)
          → str_eq ip "" ≡ unknown
          → (not unknown && too_many env now ip st) ≡ false
          → (ip ≡ "") ⊎ (too_many env now ip st ≡ false)
      open_gate true e h = inl ((eq_iff ip "").0 e)
      open_gate false e h = inr h
