-- ===== src/Auth/Rows.antt =====
-- The rows of users, sessions, login_attempts and ip_access (backend/internal/db/auth.go). A time is
-- in nanoseconds.
use pmacct_suricata_analyzer.Prelude.{
  ℕ, ◌+◌, ◌-◌, Bool, List, String, Option, none, some, if◌then◌else◌, str_eq,
}
use pmacct_suricata_analyzer.Prelude.Int.{ℤ, pos_part, neg_part}

pub record User : Type 0 where
  pub id : ℕ
  pub username : String
  pub is_admin : Bool
  pub must_change_password : Bool
  pub disabled : Bool
  pub created_at : ℕ
  pub last_login : Option ℕ
  pub last_login_ip : Option String
  pub password_hash : String

pub record Session : Type 0 where
  pub token : String
  pub user_id : ℕ
  pub expires_at : ℕ
  pub ip : Option String
  pub user_agent : String
  pub last_seen : ℕ

-- A row of login_attempts.
pub record Attempt : Type 0 where
  pub ip : Option String
  pub username : Option String
  pub success : Bool
  pub reason : Option String
  pub user_agent : String
  pub ts : ℕ

pub data Action : Type 0 where
  allow deny : Action

pub data Source : Type 0 where
  manual auto : Source

pub record IpRule : Type 0 where
  pub net : String
  pub action : Action
  pub source : Source
  pub expires_at : Option ℕ

pub record Store : Type 0 where
  pub users : List User
  pub next_user : ℕ
  pub sessions : List Session
  pub attempts : List Attempt
  pub ip_access : List IpRule

-- What the server decides about addresses in text: `within ip net` is `ip::inet <<= net`, and
-- `net_of` is the network that an address is stored as.
pub record Addresses : Type 0 where
  pub within : String → String → Bool
  pub net_of : String → String

-- A time moved forward by a duration.
abbrev pub after : ℕ → ℤ → ℕ
after t d = t + pos_part d - neg_part d

-- `nilIfEmpty`.
abbrev pub nil_if_empty : String → Option String
nil_if_empty s = if str_eq s "" then none else some s
