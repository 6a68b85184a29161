-- ===== src/Suricata/Types.antt =====
-- The events of Suricata, the listener's counters, and the tables that events are stored in
-- (backend/internal/suricata/suricata.go and backend/internal/db/ids.go).
use pmacct_suricata_analyzer.Prelude.{ℕ, Bool, List, String, Option, Result}
use pmacct_suricata_analyzer.Prelude.Int.{ℤ}
use pmacct_suricata_analyzer.Rules.Types.{Env, RuleError, Sys}

pub record EveAlert : Type 0 where
  pub action : String
  pub signature_id : ℤ
  pub signature : String
  pub category : String
  pub severity : ℤ

pub record Answer : Type 0 where
  pub rr_name : String
  pub rr_type : String
  pub r_data : String

-- `grouped` is a map; the code reads two of its keys.
pub record Dns : Type 0 where
  pub kind : String
  pub rr_name : String
  pub rr_type : String
  pub r_data : String
  pub answers : List Answer
  pub grouped : List (String × List String)

-- `tls` is its `sni`, and `http` its `hostname`.
pub record Event : Type 0 where
  pub timestamp : String
  pub event_type : String
  pub src_ip : String
  pub src_port : ℤ
  pub dest_ip : String
  pub dest_port : ℤ
  pub proto : String
  pub app_proto : String
  pub alert : Option EveAlert
  pub dns : Option Dns
  pub tls : Option String
  pub http : Option String

pub record TypeStat : Type 0 where
  pub count : ℕ
  pub last : ℕ

-- The counters of a `Listener`; a time that is zero is `none`.
pub record Listener : Type 0 where
  pub received : ℕ
  pub alerts : ℕ
  pub names : ℕ
  pub dropped : ℕ
  pub malformed : ℕ
  pub ignored : ℕ
  pub last_at : Option ℕ
  pub last_err : String
  pub last_err_at : Option ℕ
  pub types : List (String × TypeStat)

-- A row of ids_events.
pub record IdsEvent : Type 0 where
  pub id : ℕ
  pub ts : ℕ
  pub src_ip : Option String
  pub src_port : Option ℤ
  pub dst_ip : Option String
  pub dst_port : Option ℤ
  pub proto : Option String
  pub sid : ℤ
  pub signature : String
  pub category : String
  pub severity : ℤ
  pub action : String
  pub app_proto : Option String
  pub raw : String

-- A row of ip_names.
pub record NameRow : Type 0 where
  pub ip : String
  pub name : String
  pub source : String
  pub hits : ℕ
  pub last_seen : ℕ

-- The listener with what its events change: the tables of events and of names, and the engine that
-- takes the findings.
pub record Station : Type 0 where
  pub listener : Listener
  pub events : List IdsEvent
  pub next_event : ℕ
  pub names : List NameRow
  pub sys : Sys

-- What is given: `env` is the engine's, with the parsing of addresses; `decode` is
-- `json.Unmarshal`, `parse_time` `time.Parse` by a layout, `error_text` `Error`; `byte_length` is
-- the length of a text in bytes; the `…_fails` say which statements fail.
pub record Feed : Type 0 where
  pub env : Env
  pub decode : String → Result String Event
  pub parse_time : String → String → Option ℕ
  pub error_text : RuleError → String
  pub byte_length : String → ℕ
  pub is_local : Option (String → Bool)
  pub has_sink : Bool
  pub event_write_fails : IdsEvent → Bool
  pub name_write_fails : String → String → Bool
