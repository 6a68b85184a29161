-- ===== src/Auth/Tests.antt =====
-- Logins and requests at concrete stores.
use pmacct_suricata_analyzer.Prelude.{
  ◌≡◌, ◌≢◌, refl, true, false, [], ◌∷◌, String, none, some, err, arith, ne_of_str_eq, split,
  trim_space, str_eq,
}
use pmacct_suricata_analyzer.Prelude.Int.{pos}
use pmacct_suricata_analyzer.Auth.Rows.{User, Store, Addresses, manual, deny}
use pmacct_suricata_analyzer.Auth.Accounts.{delete_session, session_user, joined}
use pmacct_suricata_analyzer.Auth.Attempts.{check_ip_access, recent_failures}
use pmacct_suricata_analyzer.Auth.Login.{
  Setup, invalid_credentials, too_many, check_password, login,
}
use pmacct_suricata_analyzer.Auth.Gate.{
  GateSetup, Request, serve, reject, client_ip, normalize_ip, enforce_ip_access, authenticate,
  for_user, middleware,
}
use pmacct_suricata_analyzer.Auth.Lockout.{IsAnswer, login-IsAnswer}
use pmacct_suricata_analyzer.Auth.Guessing.{guess_locks}
use pmacct_suricata_analyzer.Auth.Access.{MayPass, middleware-MayPass, logged_out}
use pmacct_suricata_analyzer.Auth.Addresses.{unparsed_address_passes, denied_is_rejected}

-- An address is within itself.
abbrev exact : Addresses
exact = record { within = str_eq; net_of = λ s. s }

abbrev alice : User
alice = record {
  id = 1;
  username = "alice";
  is_admin = true;
  must_change_password = false;
  disabled = false;
  created_at = 1;
  last_login = none;
  last_login_ip = none;
  password_hash = "hash";
}

abbrev store : Store
store = record {
  users = alice ∷ [];
  next_user = 2;
  sessions =
      record {
        token = "t1";
        user_id = 1;
        expires_at = 90;
        ip = none;
        user_agent = "";
        last_seen = 10;
      }
      ∷ [];
  attempts = [];
  ip_access = [];
}

abbrev setup : Setup
setup = record {
  addresses = exact;
  admin_user = "admin";
  admin_password = "admin";
  session_ttl = pos 100;
  login_window = pos 20;
  login_max_failures = pos 1;
  login_lockout = pos 10;
  compare = λ h p. false;
  hash_password = λ p. none;
  dummy_hash = "dummy";
  token = "t2";
  failures_fails = false;
  lock_failures_fails = false;
  block_fails = false;
  record_fails = false;
  user_fails = false;
  create_user_fails = false;
  session_fails = false;
  record_login_fails = false;
}

abbrev gate : GateSetup
gate = record {
  addresses = exact;
  auth_enabled = true;
  trust_proxy = false;
  ip_allowlist_only = false;
  parse_ip = λ s. some s;
  split_host_port = λ s. some s;
  access_fails = false;
  session_fails = false;
}

abbrev request : Request
request = record {
  path = "/api/v1/alerts";
  forwarded_for = "";
  real_ip = "";
  remote_addr = "10.0.0.5";
  token = "t1";
}

login-IsAnswer_example :
    IsAnswer setup 50 "10.0.0.5" "alice" "guess" "" store
      (login setup 50 "10.0.0.5" "alice" "guess" "" store)
login-IsAnswer_example = login-IsAnswer setup 50 "10.0.0.5" "alice" "guess" "" store

has_text : ◌≢◌ {A = String} "10.0.0.5" ""
has_text = ne_of_str_eq "10.0.0.5" "" refl

guess_locks_example :
    ((login setup 50 "10.0.0.5" "alice" "guess" "" store).1 ≡ err invalid_credentials)
    × ((check_ip_access exact 50 "10.0.0.5"
          (login setup 50 "10.0.0.5" "alice" "guess" "" store).0).denied_auto
        ≡ true)
unfolding too_many recent_failures
guess_locks_example =
    guess_locks setup 50 "10.0.0.5" "alice" "guess" "" store refl refl refl refl refl has_text refl
      (omega arith) refl refl refl (λ u e. refl) refl refl

middleware-MayPass_example : (u : User) × (some alice ≡ some u) × MayPass 50 request store u
unfolding middleware client_ip normalize_ip enforce_ip_access check_ip_access authenticate
    session_user joined for_user trim_space
middleware-MayPass_example = middleware-MayPass gate 50 request store (some alice) refl refl refl

logged_out_example : (middleware gate 50 request (delete_session "t1" store)).1 ≢ serve (some alice)
logged_out_example = logged_out gate 50 request store (some alice) refl refl

abbrev blocked : Store
blocked = record store {
  ip_access = record { net = "10.0.0.5"; action = deny; source = manual; expires_at = none } ∷ [];
}

is_api : ◌≢◌ {A = String} "/api/v1/alerts" "/healthz"
is_api = ne_of_str_eq "/api/v1/alerts" "/healthz" refl

denied_is_rejected_example :
    middleware gate 50 request blocked ≡ (blocked, reject 403 "your address is blocked")
unfolding client_ip normalize_ip trim_space
denied_is_rejected_example =
    denied_is_rejected gate 50 request blocked refl refl is_api has_text refl

-- A proxy that hands on what the client sends, and only listed addresses.
abbrev proxied : GateSetup
proxied = record gate { trust_proxy = true; ip_allowlist_only = true; parse_ip = λ s. none }

abbrev forged : Request
forged = record request { forwarded_for = "junk, 10.0.0.5" }

is_given : ◌≢◌ {A = String} "junk, 10.0.0.5" ""
is_given = ne_of_str_eq "junk, 10.0.0.5" "" refl

is_junk : ◌≢◌ {A = String} "junk" ""
is_junk = ne_of_str_eq "junk" "" refl

unparsed_address_passes_example :
    (enforce_ip_access proxied 50 "/api/v1/alerts" (client_ip proxied forged) blocked ≡ none)
    × (login setup 50 (client_ip proxied forged) "alice" "guess" "" blocked
        ≡ check_password setup 50 (client_ip proxied forged) "alice" "guess" "" blocked)
unfolding trim_space split
unparsed_address_passes_example =
    unparsed_address_passes proxied 50 forged blocked setup "alice" "guess" "" refl is_given is_junk
      refl
