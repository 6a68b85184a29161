-- ===== src/Auth/Addresses.antt =====
-- What the gate makes of a client's address and of administrators (backend/internal/auth/auth.go,
-- `ClientIP`, `enforceIPAccess` and `RequireAdmin`).
use pmacct_suricata_analyzer.Prelude.{
  ℕ, ◌≡◌, ◌≢◌, ◌↔◌, refl, Bool, true, false, not, ◌&&◌, String, Option, none, some, inl, inr, ◌⊎◌,
  arith, if◌then◌else◌, if-split, if-either, str_eq, eq_iff, any,
}
use pmacct_suricata_analyzer.Auth.Rows.{User, Store}
use pmacct_suricata_analyzer.Auth.Attempts.{denies, check_ip_access}
use pmacct_suricata_analyzer.Auth.Login.{Setup, login, check_password}
use pmacct_suricata_analyzer.Auth.Gate.{
  GateSetup, Request, normalize_ip, forwarded, client_ip, Outcome, reject, enforce_ip_access,
  middleware, require_admin,
}

module _ (env : GateSetup) (now : ℕ) (r : Request) (st : Store) where
  denied_answer :
      env.access_fails ≡ false
      → client_ip env r ≢ ""
      → any (denies env.addresses now false (client_ip env r)) st.ip_access ≡ true
      → enforce_ip_access env now r.path (client_ip env r) st
        ≡ some (reject 403 "your address is blocked")
  unfolding enforce_ip_access check_ip_access
  denied_answer readable known listed =
      let k : str_eq (client_ip env r) "" ≡ false = ground (arith, eq_iff (client_ip env r) "") in
      if-split (λ (x : Option Outcome). x ≡ some (reject 403 "your address is blocked"))
        env.access_fails _ _ (λ e. absurd (cc)) (λ _. rw k (rw listed refl))

  unparsed_address :
      env.trust_proxy ≡ true
      → r.forwarded_for ≢ ""
      → forwarded r ≢ ""
      → env.parse_ip (forwarded r) ≡ none
      → client_ip env r ≡ ""
  unfolding client_ip normalize_ip
  unparsed_address proxy there full bad =
      if-split (λ s. s ≡ "")
        (env.trust_proxy && not (str_eq r.forwarded_for "") && not (str_eq (forwarded r) "")) _ _
        (λ _. rw (bad, normalize_ip) refl)
        (λ e. absurd (ground (arith, eq_iff r.forwarded_for "", eq_iff (forwarded r) "")))

  nobody :
      (only : Bool)
      → (if only && false && true
          then some (reject 403 "your address is not on the allow list")
          else none)
        ≡ none
  nobody true = refl
  nobody false = refl

  no_address_passes : (path : String) → enforce_ip_access env now path "" st ≡ none
  unfolding enforce_ip_access check_ip_access
  no_address_passes path =
      if-either (λ (x : Option Outcome). x ≡ none) env.access_fails _ _ refl
        (nobody env.ip_allowlist_only)

  no_address_logs_in :
      (setup : Setup) (username password agent : String)
      → login setup now "" username password agent st
        ≡ check_password setup now "" username password agent st
  unfolding login
  no_address_logs_in setup username password agent = refl

  -- With authentication on and the address rules readable, a request from an address that a manual
  -- deny rule in force covers is rejected, whatever else is true of it, unless it asks for /healthz.
  pub denied_is_rejected :
      env.auth_enabled ≡ true
      → env.access_fails ≡ false
      → r.path ≢ "/healthz"
      → client_ip env r ≢ ""
      → any (denies env.addresses now false (client_ip env r)) st.ip_access ≡ true
      → middleware env now r st ≡ (st, reject 403 "your address is blocked")
  unfolding middleware
  denied_is_rejected on readable path known listed =
      let goal = λ (p : Store × Outcome). p ≡ (st, reject 403 "your address is blocked") in
      if-split goal (not env.auth_enabled) _ _ (λ e. absurd (cc))
        (λ _.
          if-split goal (str_eq r.path "/healthz") _ _
            (λ e. absurd (path ((eq_iff r.path "/healthz").0 e)))
            (λ _. rw (denied_answer readable known listed, middleware) refl))

  -- Behind a trusted proxy, a request whose first X-Forwarded-For entry is not blank and is no address
  -- passes every address rule, also while only listed addresses may pass, and logs in with no limit
  -- on failures: its address is the empty text, which no rule and no count of failures applies to.
  pub unparsed_address_passes :
      (setup : Setup) (username password agent : String)
      → env.trust_proxy ≡ true
      → r.forwarded_for ≢ ""
      → forwarded r ≢ ""
      → env.parse_ip (forwarded r) ≡ none
      → (enforce_ip_access env now r.path (client_ip env r) st ≡ none)
        × (login setup now (client_ip env r) username password agent st
            ≡ check_password setup now (client_ip env r) username password agent st)
  unparsed_address_passes setup username password agent proxy there full bad =
      rw (unparsed_address proxy there full bad)
        (no_address_passes r.path, no_address_logs_in setup username password agent)

not_admin :
    (u v : User)
    → u.is_admin ≡ false
    → ◌≡◌ {A = Option User} (some u) (some v)
    → v.is_admin ≡ true
    → ⊥
not_admin u v e k admin = cc

no_user_iff :
    (on : Bool)
    → ((if on then some (reject 403 "admin privileges required") else none) ≡ none)
      ↔ ((on ≡ false) ⊎ ((u : User) × (◌≡◌ {A = Option User} none (some u)) × (u.is_admin ≡ true)))
no_user_iff true =
    ((λ h. absurd (cc h)), elim [ inl e ↦ absurd (cc e) | inr (u, e, _) ↦ absurd (cc e) ])
no_user_iff false = ((λ _. inl refl), λ _. refl)

user_iff :
    (on admin : Bool) (u : User)
    → u.is_admin ≡ admin
    → ((if on && not admin then some (reject 403 "admin privileges required") else none) ≡ none)
      ↔ ((on ≡ false) ⊎ ((v : User) × (some u ≡ some v) × (v.is_admin ≡ true)))
user_iff true true u e = ((λ _. inr (u, refl, e)), λ _. refl)
user_iff true false u e = (
  (λ h. absurd (cc h)),
  elim [ inl k ↦ absurd (cc k) | inr (v, k, admin) ↦ absurd (not_admin u v e k admin) ],
)
user_iff false admin u e = ((λ _. inl refl), λ _. refl)

-- A handler for administrators runs exactly when authentication is off or the user is known and is
-- an administrator.
pub require_admin_iff :
    (env : GateSetup) (o : Option User)
    → (require_admin env o ≡ none)
      ↔ ((env.auth_enabled ≡ false) ⊎ ((u : User) × (o ≡ some u) × (u.is_admin ≡ true)))
unfolding require_admin
require_admin_iff env none = no_user_iff env.auth_enabled
require_admin_iff env (some u) = user_iff env.auth_enabled u.is_admin u refl
