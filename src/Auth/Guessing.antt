-- ===== src/Auth/Guessing.antt =====
-- Protection against guessing (backend/internal/auth/auth.go, `Login` and `maybeLock`;
-- backend/internal/db/auth.go, `AutoBlock`): the failure that reaches the limit blocks the address.
use pmacct_suricata_analyzer.Prelude.{
  ℕ, suc, ◌<◌, ◌≡◌, ◌≢◌, refl, ap, ◌∙◌, Bool, true, false, not, ◌&&◌, ◌||◌, List, [], ◌∷◌, String,
  Option, none, some, Result, err, inl, inr, arith, Bool-cases, if◌then◌else◌, if-split, str_eq,
  eq_iff, any, any-append, count_where-snoc, update_where,
}
use pmacct_suricata_analyzer.Prelude.Int.{ℤ, pos, leb_ℤ, ltb_ℤ}
use pmacct_suricata_analyzer.Auth.Rows.{User, Store, Addresses, IpRule, after}
use pmacct_suricata_analyzer.Auth.Accounts.{user_by_name}
use pmacct_suricata_analyzer.Auth.Attempts.{
  record_attempt, recent_failures, is_recent_failure, allows, denies, is_auto, has_net, auto_deny,
  extended, auto_block, check_ip_access,
}
use pmacct_suricata_analyzer.Auth.Login.{
  Setup, LoginError, LoginResult, hash_of, admit, invalid_credentials, try_record, too_many,
  maybe_lock, check_password, refuse, login,
}

recent_failures-record_attempt :
    (now : ℕ) (window : ℤ) (ip username reason agent : String) (st : Store)
    → ip ≢ ""
    → ltb_ℤ (pos 0) window ≡ true
    → recent_failures now window ip (record_attempt now ip username false reason agent st)
      ≡ suc (recent_failures now window ip st)
unfolding recent_failures record_attempt
recent_failures-record_attempt now window ip username reason agent st known positive =
    let k : str_eq ip "" ≡ false = ground (arith, eq_iff ip "") in
    let self : str_eq ip ip ≡ true = (eq_iff ip ip).1 refl in
    rw k (count_where-snoc (is_recent_failure now window ip) st.attempts _ (rw self (ground arith)))

module _ (n : Addresses) (now : ℕ) (ip : String) (t : ℕ) where
  -- A manual rule of the address's own network.
  abbrev pub is_manual : IpRule → Bool
  is_manual r = has_net (n.net_of ip) r && not (is_auto r.source)

  extended-denies :
      (rows : List IpRule)
      → n.within ip (n.net_of ip) ≡ true
      → now < t
      → any (allows n ip) rows ≡ false
      → any is_manual rows ≡ false
      → any (has_net (n.net_of ip)) rows ≡ true
      → any
          (denies n now true ip)
          (update_where (λ r. has_net (n.net_of ip) r && is_auto r.source) (extended t) rows)
        ≡ true
  extended-denies [] self later free lone some_net = absurd (ground arith)
  extended-denies (r ∷ rows) self later free lone some_net =
      elim (Bool-cases (has_net (n.net_of ip) r)) [
        | inl e ↦
            let covered : n.within ip r.net ≡ true = rw ((eq_iff r.net (n.net_of ip)).0 e) self in
            ground arith
        | inr e ↦ ground (arith, extended-denies rows self later)
      ]

  auto_block-denies :
      (lockout : ℤ) (st : Store)
      → after now lockout ≡ t
      → ip ≢ ""
      → n.within ip (n.net_of ip) ≡ true
      → now < t
      → any (allows n ip) st.ip_access ≡ false
      → any is_manual st.ip_access ≡ false
      → (check_ip_access n now ip (auto_block n now ip lockout st)).denied_auto ≡ true
  unfolding check_ip_access auto_block
  auto_block-denies lockout st at known self later free lone =
      let k : str_eq ip "" ≡ false = ground (arith, eq_iff ip "") in
      elim (Bool-cases (any (has_net (n.net_of ip)) st.ip_access)) [
        | inl e ↦ rw (k, free, e, at) (extended-denies st.ip_access self later free lone e)
        | inr e ↦
            rw (k, free, e, at)
              (ground (
                arith,
                any-append (denies n now true ip) st.ip_access (auto_deny (n.net_of ip) t ∷ []),
              ))
      ]

module _ (env : Setup) (now : ℕ) (ip : String) where
  recorded :
      (username agent : String) (st : Store)
      → env.record_fails ≡ false
      → try_record env now ip username false "bad_credentials" agent st
        ≡ record_attempt now ip username false "bad_credentials" agent st
  recorded username agent st f =
      if-split (λ s. s ≡ record_attempt now ip username false "bad_credentials" agent st)
        env.record_fails _ _ (λ e. absurd (cc)) (λ _. refl)

  maybe_lock-blocks :
      (st : Store)
      → env.lock_failures_fails ≡ false
      → env.block_fails ≡ false
      → ip ≢ ""
      → too_many env now ip st ≡ true
      → maybe_lock env now ip st ≡ auto_block env.addresses now ip env.login_lockout st
  unfolding maybe_lock
  maybe_lock-blocks st f b known enough =
      let goal = λ (s : Store). s ≡ auto_block env.addresses now ip env.login_lockout st in
      if-split goal (str_eq ip "" || env.lock_failures_fails) _ _
        (λ e. absurd (ground (arith, eq_iff ip "")))
        (λ _.
          if-split goal (too_many env now ip st) _ _
            (λ _. if-split goal env.block_fails _ _ (λ e. absurd (cc)) (λ _. refl))
            (λ e. absurd (cc)))

  too_many_after :
      (username agent : String) (st : Store)
      → ip ≢ ""
      → ltb_ℤ (pos 0) env.login_window ≡ true
      → leb_ℤ env.login_max_failures (pos (suc (recent_failures now env.login_window ip st))) ≡ true
      → too_many env now ip (record_attempt now ip username false "bad_credentials" agent st) ≡ true
  unfolding too_many
  too_many_after username agent st known positive reached =
      rw
        (recent_failures-record_attempt now env.login_window ip username "bad_credentials" agent st
          known positive)
        reached

  check_password-refused :
      (username password agent : String) (st : Store)
      → ((u : User)
          → user_by_name username st ≡ some u
          → env.compare u.password_hash password ≡ false)
      → env.user_fails ≡ false
      → check_password env now ip username password agent st ≡ refuse env now ip username agent st
  unfolding check_password
  check_password-refused username password agent st wrong f =
      if-split (λ p. p ≡ refuse env now ip username agent st) env.user_fails _ _ (λ e. absurd (cc))
        (λ _. by_user (user_by_name username st) refl)
    where
      by_user :
          (o : Option User)
          → user_by_name username st ≡ o
          → (let matches = env.compare (hash_of env o) password in
              elim o [
                | none ↦ refuse env now ip username agent st
                | some u ↦
                    if not matches
                    then refuse env now ip username agent st
                    else admit env now ip username agent u st
              ])
            ≡ refuse env now ip username agent st
      by_user none e = refl
      by_user (some u) e = rw (wrong u e) refl

  login-refused :
      (username password agent : String) (st : Store)
      → env.failures_fails ≡ false
      → env.user_fails ≡ false
      → too_many env now ip st ≡ false
      → ((u : User)
          → user_by_name username st ≡ some u
          → env.compare u.password_hash password ≡ false)
      → login env now ip username password agent st ≡ refuse env now ip username agent st
  unfolding login
  login-refused username password agent st f g below wrong =
      let goal =
        λ (p : Store × Result LoginError LoginResult). p ≡ refuse env now ip username agent st in
      if-split goal (not (str_eq ip "") && env.failures_fails) _ _ (λ e. absurd (ground arith))
        (λ _.
          if-split goal (not (str_eq ip "") && too_many env now ip st) _ _
            (λ e. absurd (ground arith))
            (λ _. check_password-refused username password agent st wrong g))

-- With the statements on the database working, a positive login window and a lockout that ends later
-- than it begins, and an address that has a text, is in its own network, is not on the allow list and
-- has no manual rule of its own: a login with a name that is unknown or a password that does not match,
-- before which the recent failures are below the limit and with which they reach it, is refused, and
-- leaves the address denied.
pub guess_locks :
    (env : Setup) (now : ℕ) (ip username password agent : String) (st : Store)
    → env.failures_fails ≡ false
    → env.lock_failures_fails ≡ false
    → env.block_fails ≡ false
    → env.record_fails ≡ false
    → env.user_fails ≡ false
    → ip ≢ ""
    → ltb_ℤ (pos 0) env.login_window ≡ true
    → now < after now env.login_lockout
    → env.addresses.within ip (env.addresses.net_of ip) ≡ true
    → any (allows env.addresses ip) st.ip_access ≡ false
    → any (is_manual env.addresses now ip (after now env.login_lockout)) st.ip_access ≡ false
    → ((u : User)
        → user_by_name username st ≡ some u
        → env.compare u.password_hash password ≡ false)
    → too_many env now ip st ≡ false
    → leb_ℤ env.login_max_failures (pos (suc (recent_failures now env.login_window ip st))) ≡ true
    → ((login env now ip username password agent st).1 ≡ err invalid_credentials)
      × ((check_ip_access env.addresses now ip
            (login env now ip username password agent st).0).denied_auto
          ≡ true)
guess_locks env now ip username password agent st f₁ f₂ f₃ f₄ f₅ known positive later self free lone
      wrong below reached =
    let st' = record_attempt now ip username false "bad_credentials" agent st in
    let refused = login-refused env now ip username password agent st f₁ f₅ below wrong in
    let enough : too_many env now ip st' ≡ true =
      too_many_after env now ip username agent st known positive reached in
    let blocked : (refuse env now ip username agent st).0
        ≡ auto_block env.addresses now ip env.login_lockout st' =
      ap (maybe_lock env now ip) (recorded env now ip username agent st f₄)
      ∙ maybe_lock-blocks env now ip st' f₂ f₃ known enough in
    (
      ap (λ (p : Store × Result LoginError LoginResult). p.1) refused,
      ap
            (λ (p : Store × Result LoginError LoginResult).
              (check_ip_access env.addresses now ip p.0).denied_auto)
            refused
          ∙ (ap (λ s. (check_ip_access env.addresses now ip s).denied_auto) blocked
              ∙ auto_block-denies env.addresses now ip (after now env.login_lockout)
                  env.login_lockout st' refl known self later (unfold record_attempt in free)
                  (unfold record_attempt in lone)),
    )
