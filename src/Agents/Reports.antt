-- ===== src/Agents/Reports.antt =====
-- What agents report: heartbeats, connections and programs (backend/internal/db/agents.go and
-- identity.go).
use pmacct_suricata_analyzer.Prelude.{
  ℕ, suc, ◌+◌, ◌*◌, ◌/◌, max, Bool, true, false, not, ◌&&◌, ◌||◌, ◌==◌, List, [], ◌∷◌, ◌++◌, String,
  Option, none, some, Result, ok, err, str_eq, any, update_where, length, if◌then◌else◌,
}
use pmacct_suricata_analyzer.Prelude.Int.{ℤ, ◌+ℤ◌}
use pmacct_suricata_analyzer.Alerts.{DbError, failed}
use pmacct_suricata_analyzer.Agents.Rows.{
  Agent, Conn, ConnRow, ProgramIdentity, IdentityRow, FileRow, Store, touch_row, insert_conns,
  insert_identity, insert_file, AgentEnv, has_id, same_key,
}
use pmacct_suricata_analyzer.Agents.Store.{or_default, on_agents}

abbrev pub is_listed {ℓ} : {A : Type ℓ} → List A → Bool
is_listed [] = false
is_listed (_ ∷ _) = true

-- A heartbeat, as `TouchAgent` takes it.
pub record Beat : Type 0 where
  pub ips : List String
  pub version : String
  pub capture : String
  pub remote : String
  pub batch : ℕ
  pub dropped : ℤ

unfoldable pub touched : ℕ → Beat → Agent → Agent
touched now b a = record a {
  last_seen = some now;
  ips = if is_listed b.ips then b.ips else a.ips;
  version = or_default b.version a.version;
  capture = or_default b.capture a.capture;
  last_ip = if str_eq b.remote "" then a.last_ip else some b.remote;
  events_total = a.events_total + b.batch;
  last_batch = b.batch;
  dropped = b.dropped;
}

-- `TouchAgent`.
unfoldable pub touch_agent : AgentEnv → ℕ → ℕ → Beat → Store → Store × Result DbError Bool
unfolding touched
touch_agent env now id b st = on_agents (env.fails touch_row) (has_id id) (touched now b) st

-- `ON CONFLICT DO UPDATE`: counts and bytes are added.
unfoldable pub merged : Conn → Conn → Conn
merged new old = record old {
  count = old.count +ℤ new.count;
  bytes = old.bytes +ℤ new.bytes;
  pid = new.pid;
  name = new.name;
  sha256 = new.sha256;
  cmdline = or_default new.cmdline old.cmdline;
}

abbrev pub one_minute : ℕ
one_minute = 60_000_000_000

-- `c.Minute.UTC().Truncate(time.Minute)`.
abbrev pub in_minute : Conn → Conn
in_minute c = record c { minute = c.minute / one_minute * one_minute }

unfoldable pub put_conn : ConnRow → List ConnRow → List ConnRow
unfolding merged
put_conn r [] = r ∷ []
put_conn r (s ∷ rows) =
    let rest = put_conn r rows in
    if same_key r s then record s { conn = merged r.conn s.conn } ∷ rows else s ∷ rest

unfoldable pub put_conns : ℕ → List Conn → List ConnRow → List ConnRow
unfolding put_conn
put_conns id [] rows = rows
put_conns id (c ∷ cs) rows =
    put_conns id cs (put_conn (record { agent_id = id; conn = in_minute c }) rows)

-- `InsertEndpointConns`: the batch is one transaction.
unfoldable pub insert_endpoint_conns : AgentEnv → ℕ → List Conn → Store → Store × Result DbError ℕ
unfolding put_conns
insert_endpoint_conns env id [] st = (st, ok 0)
insert_endpoint_conns env id (c ∷ cs) st =
    if env.fails insert_conns
    then (st, err failed)
    else (record st { conns = put_conns id (c ∷ cs) st.conns }, ok (length (c ∷ cs)))

abbrev pub is_one_of : String → List String → Bool
is_one_of s names = any (str_eq s) names

abbrev pub is_altered : Option Bool → Bool
is_altered none = false
is_altered (some intact) = not intact

-- `lookupPriority`.
unfoldable pub lookup_priority : ProgramIdentity → ℕ
lookup_priority p =
    if is_altered p.verified || str_eq p.signature "invalid"
    then 30
    else if is_one_of p.origin ("tmp" ∷ "download" ∷ "unpackaged" ∷ [])
        || is_one_of p.signature ("unsigned" ∷ "untrusted" ∷ [])
    then 20
    else if is_one_of p.origin ("home" ∷ "opt" ∷ "local" ∷ "user-install" ∷ "venv" ∷ "" ∷ [])
    then 10
    else 0

abbrev pub same_program : ℕ → ProgramIdentity → IdentityRow → Bool
same_program id p r =
    (r.agent_id == id) && str_eq r.program.exe p.exe && str_eq r.program.sha256 p.sha256

-- `INSERT INTO program_identity … ON CONFLICT DO UPDATE`.
unfoldable pub put_identity : ℕ → ℕ → ProgramIdentity → List IdentityRow → List IdentityRow
put_identity now id p rows =
    if any (same_program id p) rows
    then update_where (same_program id p) (λ r. record r { program = p; last_reported = now }) rows
    else rows
      ++ record { agent_id = id; program = p; first_reported = now; last_reported = now } ∷ []

abbrev pub is_file : String → FileRow → Bool
is_file h r = str_eq r.sha256 h

-- What a report adds to a file that is known.
abbrev pub more_known : ProgramIdentity → FileRow → FileRow
more_known p r = record r {
  sha1 = or_default r.sha1 p.sha1;
  md5 = or_default r.md5 p.md5;
  priority = max r.priority (lookup_priority p);
  mhr_status =
      if str_eq r.mhr_status "skipped" && not (str_eq p.md5 "") then "pending" else r.mhr_status;
}

-- `INSERT INTO file_intel … ON CONFLICT DO UPDATE`.
unfoldable pub put_file : ProgramIdentity → List FileRow → List FileRow
unfolding lookup_priority
put_file p rows =
    if any (is_file p.sha256) rows
    then update_where (is_file p.sha256) (more_known p) rows
    else rows
      ++ record {
        sha256 = p.sha256;
        sha1 = p.sha1;
        md5 = p.md5;
        priority = lookup_priority p;
        mhr_status = "pending";
      }
        ∷ []

-- `UpsertProgramIdentities` behind `n` rows: each statement stands for itself.
unfoldable pub upsert_identities_from :
    AgentEnv → ℕ → ℕ → ℕ → List ProgramIdentity → Store → Store × Result DbError ℕ
unfolding put_identity put_file
upsert_identities_from env now id n [] st = (st, ok n)
upsert_identities_from env now id n (p ∷ ps) st =
    let skipped = upsert_identities_from env now id n ps st in
    let known = record st { programs = put_identity now id p st.programs } in
    let done =
      upsert_identities_from env now id (suc n) ps (record known { files = put_file p st.files }) in
    if str_eq p.exe "" || not (env.byte_length p.sha256 == 64)
    then skipped
    else if env.fails (insert_identity p)
    then (st, err failed)
    else if env.fails (insert_file p)
    then (known, err failed)
    else done

-- `UpsertProgramIdentities`.
unfoldable pub upsert_program_identities :
    AgentEnv → ℕ → ℕ → List ProgramIdentity → Store → Store × Result DbError ℕ
unfolding upsert_identities_from
upsert_program_identities env now id ps st = upsert_identities_from env now id 0 ps st
