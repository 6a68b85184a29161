-- ===== src/Auth/Login.antt =====
-- The login of backend/internal/auth/auth.go: the seeded administrator, brute-force protection and
-- the session that a login makes.
use pmacct_suricata_analyzer.Prelude.{
  ℕ, Bool, true, false, not, ◌&&◌, ◌||◌, String, Option, none, some, Result, ok, err, if◌then◌else◌,
  ltb, str_eq,
}
use pmacct_suricata_analyzer.Prelude.Int.{ℤ, pos, leb_ℤ}
use pmacct_suricata_analyzer.Auth.Rows.{User, Store, Addresses}
use pmacct_suricata_analyzer.Auth.Accounts.{
  count_users, create_user, user_by_name, record_login, create_session,
}
use pmacct_suricata_analyzer.Auth.Attempts.{record_attempt, recent_failures, auto_block}

-- The configuration, and what the service calls outside the package: `compare` is bcrypt's
-- comparison of a hash and a password, `hash_password` its hash of one, `dummy_hash` the hash that
-- stands in for an unknown user's, and `token` the random token of this login. The `…_fails` say
-- which statements on the database fail; a count of failures may fail in `Login` or in `maybeLock`.
pub record Setup : Type 0 where
  pub addresses : Addresses
  pub admin_user : String
  pub admin_password : String
  pub session_ttl : ℤ
  pub login_window : ℤ
  pub login_max_failures : ℤ
  pub login_lockout : ℤ
  pub compare : String → String → Bool
  pub hash_password : String → Option String
  pub dummy_hash : String
  pub token : String
  pub failures_fails : Bool
  pub lock_failures_fails : Bool
  pub block_fails : Bool
  pub record_fails : Bool
  pub user_fails : Bool
  pub create_user_fails : Bool
  pub session_fails : Bool
  pub record_login_fails : Bool

pub data LoginError : Type 0 where
  db_failed hash_failed invalid_credentials disabled : LoginError
  -- With the time after which to try again.
  locked_out : ℤ → LoginError

-- `EnsureAdmin`.
unfoldable pub ensure_admin : Setup → ℕ → Store → Store × Result LoginError (Unit {0})
unfolding count_users create_user
ensure_admin env now st =
    if env.user_fails
    then (st, err db_failed)
    else if ltb 0 (count_users st)
    then (st, ok tt)
    else elim (env.hash_password env.admin_password) [
      | none ↦ (st, err hash_failed)
      | some hash ↦
          if env.create_user_fails
          then (st, err db_failed)
          else created
              (create_user now env.admin_user hash true (str_eq env.admin_password "admin") st)
    ]
  where
    created : Option (User × Store) → Store × Result LoginError (Unit {0})
    created none = (st, err db_failed)
    created (some (u, st')) = (st', ok tt)

-- Statements whose error is dropped.
abbrev pub try_record : Setup → ℕ → String → String → Bool → String → String → Store → Store
try_record env now ip username success reason agent st =
    if env.record_fails then st else record_attempt now ip username success reason agent st

abbrev pub try_block : Setup → ℕ → String → Store → Store
try_block env now ip st =
    if env.block_fails then st else auto_block env.addresses now ip env.login_lockout st

-- Whether the address has too many recent failures.
unfoldable pub too_many : Setup → ℕ → String → Store → Bool
unfolding recent_failures
too_many env now ip st =
    leb_ℤ env.login_max_failures (pos (recent_failures now env.login_window ip st))

-- `maybeLock`.
unfoldable pub maybe_lock : Setup → ℕ → String → Store → Store
unfolding too_many auto_block
maybe_lock env now ip st =
    if str_eq ip "" || env.lock_failures_fails
    then st
    else if too_many env now ip st
    then try_block env now ip st
    else st

pub record LoginResult : Type 0 where
  pub user : User
  pub token : String

-- The hash that the password is compared with.
abbrev pub hash_of : Setup → Option User → String
hash_of env none = env.dummy_hash
hash_of env (some u) = u.password_hash

abbrev pub try_record_login : Setup → ℕ → ℕ → String → Store → Store
try_record_login env now i ip st = if env.record_login_fails then st else record_login now i ip st

abbrev pub refuse :
    Setup → ℕ → String → String → String → Store → Store × Result LoginError LoginResult
refuse env now ip username agent st = (
  maybe_lock env now ip (try_record env now ip username false "bad_credentials" agent st),
  err invalid_credentials,
)

-- What follows the comparison of the password.
unfoldable pub admit :
    Setup → ℕ → String → String → String → User → Store → Store × Result LoginError LoginResult
unfolding create_session record_attempt record_login
admit env now ip username agent u st =
    if u.disabled
    then (try_record env now ip username false "disabled" agent st, err disabled)
    else if env.session_fails
    then (st, err db_failed)
    else elim (create_session now env.token u.id env.session_ttl ip agent st) [
      | none ↦ (st, err db_failed)
      | some st' ↦ (
        try_record_login env now u.id ip (try_record env now ip username true "" agent st'),
        ok (record { user = u; token = env.token }),
      )
    ]

-- Behind the brute-force gate.
unfoldable pub check_password :
    Setup → ℕ → String → String → String → String → Store → Store × Result LoginError LoginResult
unfolding user_by_name maybe_lock admit record_attempt
check_password env now ip username password agent st =
    if env.user_fails
    then (st, err db_failed)
    else let user = user_by_name username st in
      let matches = env.compare (hash_of env user) password in
      elim user [
        | none ↦ refuse env now ip username agent st
        | some u ↦
            if not matches
            then refuse env now ip username agent st
            else admit env now ip username agent u st
      ]

-- `Login`.
unfoldable pub login :
    Setup → ℕ → String → String → String → String → Store → Store × Result LoginError LoginResult
unfolding check_password too_many auto_block record_attempt
login env now ip username password agent st =
    if not (str_eq ip "") && env.failures_fails
    then (st, err db_failed)
    else if not (str_eq ip "") && too_many env now ip st
    then (
      try_record env now ip username false "locked_out" agent (try_block env now ip st),
      err (locked_out env.login_lockout),
    )
    else check_password env now ip username password agent st
