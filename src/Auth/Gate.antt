-- ===== src/Auth/Gate.antt =====
-- The HTTP gate of backend/internal/auth/auth.go: the client's address, address rules, the session
-- that a request needs, and administrators.
use pmacct_suricata_analyzer.Prelude.{
  ℕ, Bool, not, ◌&&◌, ◌||◌, List, [], ◌∷◌, String, Option, none, some, if◌then◌else◌, str_eq,
  has_prefix, split, trim_space,
}
use pmacct_suricata_analyzer.Auth.Rows.{User, Store, Addresses}
use pmacct_suricata_analyzer.Auth.Accounts.{session_user}
use pmacct_suricata_analyzer.Auth.Attempts.{check_ip_access}

-- The configuration, and what the gate calls outside the package: `parse_ip` is `net.ParseIP` with
-- `String`, and `split_host_port` the host of `net.SplitHostPort`. The `…_fails` say which queries
-- fail.
pub record GateSetup : Type 0 where
  pub addresses : Addresses
  pub auth_enabled : Bool
  pub trust_proxy : Bool
  pub ip_allowlist_only : Bool
  pub parse_ip : String → Option String
  pub split_host_port : String → Option String
  pub access_fails : Bool
  pub session_fails : Bool

-- A request: the headers and the cookie are empty texts where they are missing.
pub record Request : Type 0 where
  pub path : String
  pub forwarded_for : String
  pub real_ip : String
  pub remote_addr : String
  pub token : String

unfoldable pub normalize_ip : GateSetup → String → String
normalize_ip env s = elim (env.parse_ip s) [ none ↦ "" | some ip ↦ ip ]

abbrev pub first_part : List String → String
first_part [] = ""
first_part (p ∷ _) = p

-- The first entry of X-Forwarded-For, trimmed.
abbrev pub forwarded : Request → String
forwarded r = trim_space (first_part (split r.forwarded_for b','))

abbrev direct : GateSetup → String → String
direct env addr = elim (env.split_host_port addr) [
  | none ↦ normalize_ip env addr
  | some host ↦ normalize_ip env host
]

-- `ClientIP`.
unfoldable pub client_ip : GateSetup → Request → String
unfolding normalize_ip
client_ip env r =
    if env.trust_proxy && not (str_eq r.forwarded_for "") && not (str_eq (forwarded r) "")
    then normalize_ip env (forwarded r)
    else if env.trust_proxy && not (str_eq (trim_space r.real_ip) "")
    then normalize_ip env (trim_space r.real_ip)
    else direct env r.remote_addr

-- What the gate does with a request: hand it on, with the user if it knows one, or answer it.
pub data Outcome : Type 0 where
  serve : Option User → Outcome
  reject : ℕ → String → Outcome

abbrev pub login_path : String
login_path = "/api/v1/auth/login"

-- `enforceIPAccess`: the answer to a request that may not pass.
unfoldable pub enforce_ip_access : GateSetup → ℕ → String → String → Store → Option Outcome
unfolding check_ip_access
enforce_ip_access env now path ip st =
    let dec = check_ip_access env.addresses now ip st in
    if env.access_fails
    then none
    else if dec.denied_manual
    then some (reject 403 "your address is blocked")
    else if dec.denied_auto && not (str_eq path login_path)
    then some (reject 403 "your address is temporarily blocked after repeated failed logins")
    else if env.ip_allowlist_only && dec.has_allow_list && not dec.allowed
    then some (reject 403 "your address is not on the allow list")
    else none

abbrev pub is_public : String → Bool
is_public path =
    str_eq path "/healthz"
    || str_eq path login_path
    || has_prefix path "/api/v1/tls/"
    || has_prefix path "/api/v1/agent/"
    || not (has_prefix path "/api/")

-- What a user may reach while a password change is pending.
abbrev pub is_open_to_pending : String → Bool
is_open_to_pending path =
    str_eq path "/api/v1/auth/me"
    || str_eq path "/api/v1/auth/change-password"
    || str_eq path "/api/v1/auth/logout"

unfoldable pub for_user : String → Option User → Outcome
for_user path none = reject 401 "authentication required"
for_user path (some u) =
    if u.must_change_password && not (is_open_to_pending path)
    then reject 403 "password change required"
    else serve (some u)

-- The session that a path needs.
unfoldable pub authenticate : GateSetup → ℕ → Request → Store → Store × Outcome
unfolding session_user for_user
authenticate env now r st =
    if is_public r.path
    then (st, serve none)
    else if env.session_fails
    then (st, reject 500 "auth error")
    else let (u, st') = session_user now r.token st in (st', for_user r.path u)

-- `Middleware`.
unfoldable pub middleware : GateSetup → ℕ → Request → Store → Store × Outcome
unfolding client_ip enforce_ip_access authenticate
middleware env now r st =
    if not env.auth_enabled
    then (st, serve none)
    else if str_eq r.path "/healthz"
    then authenticate env now r st
    else elim (enforce_ip_access env now r.path (client_ip env r) st) [
      | some answer ↦ (st, answer)
      | none ↦ authenticate env now r st
    ]

-- `RequireAdmin`: the answer to a request that may not pass.
unfoldable pub require_admin : GateSetup → Option User → Option Outcome
require_admin env none =
    if env.auth_enabled then some (reject 403 "admin privileges required") else none
require_admin env (some u) =
    if env.auth_enabled && not u.is_admin
    then some (reject 403 "admin privileges required")
    else none
