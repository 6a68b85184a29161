-- ===== src/Agents/Rows.antt =====
-- The rows of agent_enroll_tokens, agents, endpoint_conns, program_identity and file_intel
-- (backend/internal/db/agents.go and identity.go). A time is in nanoseconds since the zero time.
use pmacct_suricata_analyzer.Prelude.{
  ℕ, Bool, not, ◌&&◌, ltb, ◌==◌, List, String, Option, is_some, str_eq, trim_space,
}
use pmacct_suricata_analyzer.Prelude.Int.{ℤ, eqb_ℤ}

pub record EnrollToken : Type 0 where
  pub token_hash : String
  pub name : String
  pub created_by : String
  pub expires_at : ℕ
  pub used_at : Option ℕ
  pub used_by_agent : Option ℕ

-- `Agent`, with the hash of its token.
pub record Agent : Type 0 where
  pub id : ℕ
  pub name : String
  pub hostname : String
  pub os : String
  pub arch : String
  pub version : String
  pub token_hash : String
  pub ips : List String
  pub capture : String
  pub enrolled_at : ℕ
  pub last_seen : Option ℕ
  pub last_ip : Option String
  pub events_total : ℕ
  pub last_batch : ℕ
  pub dropped : ℤ
  pub revoked_at : Option ℕ
  pub note : String
  pub auto_update : Bool

-- `EndpointConn`.
pub record Conn : Type 0 where
  pub minute : ℕ
  pub host : String
  pub proto : String
  pub dst : String
  pub dst_port : ℤ
  pub exe : String
  pub name : String
  pub user : String
  pub sha256 : String
  pub pid : ℤ
  pub cmdline : String
  pub container : String
  pub count : ℤ
  pub bytes : ℤ

-- A row of endpoint_conns.
pub record ConnRow : Type 0 where
  pub agent_id : ℕ
  pub conn : Conn

-- `ProgramIdentity`.
pub record ProgramIdentity : Type 0 where
  pub exe : String
  pub sha256 : String
  pub sha1 : String
  pub md5 : String
  pub size : ℤ
  pub modified : Option ℕ
  pub origin : String
  pub package_name : String
  pub package_version : String
  pub verified : Option Bool
  pub signature : String
  pub signer : String
  pub company : String
  pub product : String
  pub file_version : String
  pub description : String
  pub note : String

pub record IdentityRow : Type 0 where
  pub agent_id : ℕ
  pub program : ProgramIdentity
  pub first_reported : ℕ
  pub last_reported : ℕ

-- The columns of file_intel that the agents' reports write.
pub record FileRow : Type 0 where
  pub sha256 : String
  pub sha1 : String
  pub md5 : String
  pub priority : ℕ
  pub mhr_status : String

pub record Store : Type 0 where
  pub tokens : List EnrollToken
  pub agents : List Agent
  pub next_agent : ℕ
  pub conns : List ConnRow
  pub programs : List IdentityRow
  pub files : List FileRow

-- The statements, of which the server may refuse some.
pub data Statement : Type 0 where
  insert_token use_token insert_agent link_token begin commit : Statement
  read_agent update_row touch_row revoke_row delete_row insert_conns prune_conns prune_agents :
      Statement
  insert_identity insert_file : ProgramIdentity → Statement

-- What is given: `hash` is the digest in hexadecimal digits; `split_host` is `net.SplitHostPort`;
-- `unmapped` is an address of `netip`, unmapped, in text; `byte_length` and `byte_prefix` are `len`
-- and `s[:n]`; `fails` says which statements fail.
pub record AgentEnv : Type 0 where
  pub hash : String → String
  pub split_host : String → Option String
  pub unmapped : String → Option String
  pub is_loopback : String → Bool
  pub is_link_local : String → Bool
  pub to_lower : String → String
  pub byte_length : String → ℕ
  pub byte_prefix : ℕ → String → String
  pub fails : Statement → Bool

-- `HashToken`.
unfoldable pub hash_token : AgentEnv → String → String
hash_token env token = env.hash (trim_space token)

abbrev pub token_is : String → EnrollToken → Bool
token_is h t = str_eq t.token_hash h

abbrev pub is_unused : String → EnrollToken → Bool
is_unused h t = token_is h t && not (is_some t.used_at)

-- `token_hash = $1 AND used_at IS NULL AND expires_at > now()`.
abbrev pub is_usable : ℕ → String → EnrollToken → Bool
is_usable now h t = is_unused h t && ltb now t.expires_at

abbrev pub agent_is : String → Agent → Bool
agent_is h a = str_eq a.token_hash h

-- `token_hash = $1 AND revoked_at IS NULL`.
abbrev pub is_active : String → Agent → Bool
is_active h a = agent_is h a && not (is_some a.revoked_at)

abbrev pub has_id : ℕ → Agent → Bool
has_id id a = a.id == id

abbrev pub same_conn_key : Conn → Conn → Bool
same_conn_key c d =
    (c.minute == d.minute)
    && str_eq c.host d.host
    && str_eq c.proto d.proto
    && str_eq c.dst d.dst
    && eqb_ℤ c.dst_port d.dst_port
    && str_eq c.exe d.exe
    && str_eq c.user d.user
    && str_eq c.container d.container

-- `(agent_id, minute, host, proto, dst, dst_port, exe, "user", container)`.
abbrev pub same_key : ConnRow → ConnRow → Bool
same_key r s = (r.agent_id == s.agent_id) && same_conn_key r.conn s.conn
