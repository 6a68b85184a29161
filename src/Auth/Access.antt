-- ===== src/Auth/Access.antt =====
-- Who passes the gate (backend/internal/auth/auth.go, `Middleware`, `enforceIPAccess` and
-- `RequireAdmin`).
use pmacct_suricata_analyzer.Prelude.{
  ℕ, ◌≡◌, ◌≢◌, refl, sym, ap, ◌∙◌, Bool, true, false, not, ◌&&◌, List, [], ◌∷◌, String, Option,
  none, some, inl, inr, ◌⊎◌, arith, Bool-cases, Option-cases, if-split, ◌==◌, str_eq, ltb, any,
  find, find-passes, drop_where,
}
use pmacct_suricata_analyzer.Auth.Rows.{User, Session, Store}
use pmacct_suricata_analyzer.Auth.Accounts.{
  is_current, enabled_user, joined, session_user, delete_session, has_token,
}
use pmacct_suricata_analyzer.Auth.Attempts.{check_ip_access}
use pmacct_suricata_analyzer.Auth.Gate.{
  GateSetup, Request, client_ip, Outcome, serve, reject, login_path, enforce_ip_access, is_public,
  is_open_to_pending, for_user, authenticate, middleware,
}

-- A session of the token, not expired, of the user.
abbrev pub session_of : ℕ → String → User → Session → Bool
session_of now token u s = str_eq s.token token && ltb now s.expires_at && s.user_id == u.id

joined_sound :
    (now : ℕ) (token : String) (users : List User) (ss : List Session) (u : User)
    → joined now token users ss ≡ some u
    → (any (session_of now token u) ss ≡ true)
      × (find (enabled_user u.id) users ≡ some u)
      × (u.disabled ≡ false)
unfolding joined
joined_sound now token users [] u h = absurd (cc h)
joined_sound now token users (s ∷ ss) u h = elim (Bool-cases (is_current now token s)) [
  | inr old ↦
      let (one, there, on) = joined_sound now token users ss u (rw (old, joined) at h) in
      (ground arith, there, on)
  | inl current ↦ elim (Option-cases (find (enabled_user s.user_id) users)) [
    | inl gone ↦
        let (one, there, on) =
          joined_sound now token users ss u (rw (gone, joined) at (rw (current, joined) at h)) in
        (ground arith, there, on)
    | inr (v, found) ↦
        let same : v ≡ u = ground (arith, rw (found, joined) at (rw (current, joined) at h)) in
        let passes = find-passes (enabled_user s.user_id) users v found in
        let passes' : enabled_user s.user_id u ≡ true =
          ap (enabled_user s.user_id) (sym same) ∙ passes in
        let id : s.user_id ≡ u.id = ground arith in
        (
          ground arith,
          ap (λ i. find (enabled_user i) users) (sym id) ∙ (found ∙ ap some same),
          ground arith,
        )
  ]
]

session_user-joined :
    (now : ℕ) (token : String) (st : Store)
    → (session_user now token st).0 ≡ joined now token st.users st.sessions
unfolding session_user
session_user-joined now token st = elim (Option-cases (joined now token st.users st.sessions)) [
  | inl e ↦ rw (e, session_user) refl
  | inr (u, e) ↦ rw (e, session_user) refl
]

-- An enabled user with a session of the request's token that has not expired, who has no password
-- change to make or asks for one of the few paths that are open until then.
pub record MayPass (now : ℕ) (r : Request) (st : Store) (u : User) : Type 0 where
  pub session : any (session_of now r.token u) st.sessions ≡ true
  pub listed : find (enabled_user u.id) st.users ≡ some u
  pub enabled : u.disabled ≡ false
  pub settled : (u.must_change_password ≡ false) ⊎ (is_open_to_pending r.path ≡ true)

settled_of :
    (pending free : Bool) → (pending && not free) ≡ false → (pending ≡ false) ⊎ (free ≡ true)
settled_of true true h = inr refl
settled_of true false h = cc
settled_of false free h = inl refl

module _ (env : GateSetup) (now : ℕ) (r : Request) (st : Store) where
  abbrev Passed : Option User → Type 0
  Passed o = (u : User) × (o ≡ some u) × MayPass now r st u

  for_user-passes :
      (j o : Option User)
      → joined now r.token st.users st.sessions ≡ j
      → for_user r.path j ≡ serve o
      → Passed o
  unfolding for_user
  for_user-passes none o e h = absurd (cc h)
  for_user-passes (some u) o e h =
      if-split (λ (a : Outcome). a ≡ serve o → Passed o)
        (u.must_change_password && not (is_open_to_pending r.path)) _ _ (λ _ k. absurd (cc k))
        (λ done k.
          let (session, listed, enabled) = joined_sound now r.token st.users st.sessions u e in
          let same : some u ≡ o = cc in
          (
            u,
            sym same,
            record {
              session = session;
              listed = listed;
              enabled = enabled;
              settled = settled_of u.must_change_password (is_open_to_pending r.path) done;
            },
          ))
        h

  authenticate-passes :
      (o : Option User)
      → is_public r.path ≡ false
      → (authenticate env now r st).1 ≡ serve o
      → Passed o
  unfolding authenticate
  authenticate-passes o closed =
      let goal = λ (p : Store × Outcome). p.1 ≡ serve o → Passed o in
      if-split goal (is_public r.path) _ _ (λ e. absurd (cc))
        (λ _.
          if-split goal env.session_fails _ _ (λ _ k. absurd (cc k))
            (λ _ k.
              for_user-passes (joined now r.token st.users st.sessions) o refl
                (ap (for_user r.path) (sym (session_user-joined now r.token st)) ∙ k)))

  rejected :
      (code : ℕ) (message : String) (a : Outcome)
      → ◌≡◌ {A = Option Outcome} (some (reject code message)) (some a)
      → (c : ℕ) × (m : String) × (a ≡ reject c m)
  rejected code message a k = (code, message, cc)

  -- The gate's own answers are rejections.
  enforce-rejects :
      (path ip : String) (a : Outcome)
      → enforce_ip_access env now path ip st ≡ some a
      → (code : ℕ) × (message : String) × (a ≡ reject code message)
  unfolding enforce_ip_access
  enforce-rejects path ip a =
      let dec = check_ip_access env.addresses now ip st in
      let goal = λ (x : Option Outcome).
        x ≡ some a → (code : ℕ) × (message : String) × (a ≡ reject code message) in
      if-split goal env.access_fails _ _ (λ _ k. absurd (cc k))
        (λ _.
          if-split goal dec.denied_manual _ _ (λ _. rejected _ _ a)
            (λ _.
              if-split goal (dec.denied_auto && not (str_eq path login_path)) _ _
                (λ _. rejected _ _ a)
                (λ _.
                  if-split goal (env.ip_allowlist_only && dec.has_allow_list && not dec.allowed) _ _
                    (λ _. rejected _ _ a) (λ _ k. absurd (cc k)))))

  -- With authentication on, a request for a path that is not public is handed on only for an enabled
  -- user with a session of the request's token that has not expired, and, while that user has a
  -- password to change, only for the few paths that are open until then.
  pub middleware-MayPass :
      (o : Option User)
      → env.auth_enabled ≡ true
      → is_public r.path ≡ false
      → (middleware env now r st).1 ≡ serve o
      → (u : User) × (o ≡ some u) × MayPass now r st u
  unfolding middleware
  middleware-MayPass o on closed =
      let goal = λ (p : Store × Outcome). p.1 ≡ serve o → Passed o in
      if-split goal (not env.auth_enabled) _ _ (λ e. absurd (cc))
        (λ _.
          if-split goal (str_eq r.path "/healthz") _ _ (λ _. authenticate-passes o closed)
            (λ _. by_gate (enforce_ip_access env now r.path (client_ip env r) st) refl))
    where
      by_gate :
          (x : Option Outcome)
          → enforce_ip_access env now r.path (client_ip env r) st ≡ x
          → (elim x as (λ _. Store × Outcome) [
            | some answer ↦ (st, answer)
            | none ↦ authenticate env now r st
          ]).1
            ≡ serve o
          → Passed o
      by_gate none e k = authenticate-passes o closed k
      by_gate (some a) e k =
          let (code, message, same) = enforce-rejects r.path (client_ip env r) a e in
          absurd (cc (sym same ∙ k))

no_session :
    (now : ℕ) (token : String) (u : User) (ss : List Session)
    → any (session_of now token u) (drop_where (has_token token) ss) ≡ false
no_session now token u [] = refl
no_session now token u (s ∷ ss) = ground (arith, no_session now token u ss)

-- With authentication on, a request with the token of a session that was deleted is not handed on,
-- unless its path is public.
pub logged_out :
    (env : GateSetup) (now : ℕ) (r : Request) (st : Store) (o : Option User)
    → env.auth_enabled ≡ true
    → is_public r.path ≡ false
    → (middleware env now r (delete_session r.token st)).1 ≢ serve o
unfolding delete_session
logged_out env now r st o on closed h =
    let (u, _, pass) = middleware-MayPass env now r (delete_session r.token st) o on closed h in
    let nothing : any (session_of now r.token u) (drop_where (has_token r.token) st.sessions)
        ≡ false =
      no_session now r.token u st.sessions in
    absurd (cc (sym nothing ∙ pass.session))
