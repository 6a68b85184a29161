-- ===== src/Agents/Tests.antt =====
-- Runs of the agents' requests (backend/internal/api/agents.go and backend/internal/db/agents.go).
use pmacct_suricata_analyzer.Prelude.{
  ◌≡◌, refl, arith, Bool, true, false, [], ◌∷◌, none, some, ok, str_eq, length, if◌then◌else◌,
  trim_space,
}
use pmacct_suricata_analyzer.Prelude.Int.{pos, negsuc}
use pmacct_suricata_analyzer.Agents.Rows.{Conn, EnrollToken, Store, Statement, AgentEnv, hash_token}
use pmacct_suricata_analyzer.Agents.Store.{Machine, enroll_agent, revoke_agent, create_enroll_token}
use pmacct_suricata_analyzer.Agents.Ingest.{Request, agent_auth, bearer}
use pmacct_suricata_analyzer.Agents.Reports.{put_conns}
use pmacct_suricata_analyzer.Agents.Handlers.{EventsRequest, Builds, agent_events}
use pmacct_suricata_analyzer.Agents.Steps.{under, stay, then_does, minted}
use pmacct_suricata_analyzer.Agents.Once.{is_ok, enroll_once}
use pmacct_suricata_analyzer.Agents.Shut.{revoked_stays_out}
use pmacct_suricata_analyzer.Agents.Accounts.{Accounts, agent_events-Accounts}
use pmacct_suricata_analyzer.Agents.Sane.{AreSane, agent_events-AreSane}

abbrev all_well : Statement → Bool
all_well s = false

abbrev env : AgentEnv
env = record {
  hash = λ s. s;
  split_host = λ s. none;
  unmapped = λ s. if str_eq s "?" then none else some s;
  is_loopback = λ s. str_eq s "127.0.0.1";
  is_link_local = λ s. false;
  to_lower = λ s. s;
  byte_length = λ s. 5;
  byte_prefix = λ n s. s;
  fails = all_well;
}

abbrev invited : EnrollToken
invited = record {
  token_hash = "invite";
  name = "";
  created_by = "admin";
  expires_at = 100;
  used_at = none;
  used_by_agent = none;
}

abbrev laptop : Machine
laptop = record {
  hostname = "laptop";
  os = "linux";
  arch = "amd64";
  version = "1.0";
  ips = "10.0.0.7" ∷ [];
  remote = "10.0.0.7";
}

abbrev empty : Store
empty = record {
  tokens = invited ∷ [];
  agents = [];
  next_agent = 1;
  conns = [];
  programs = [];
  files = [];
}

abbrev at_home : Store
at_home = (enroll_agent (under env all_well) 10 "secret" "invite" laptop empty).0

abbrev with_invitation : Store
with_invitation = (create_enroll_token (under env all_well) 20 "other" "" "admin" 50 at_home).0

abbrev without_laptop : Store
without_laptop = (revoke_agent (under env all_well) 40 1 at_home).0

enroll_test : is_ok (enroll_agent env 10 "secret" " invite" laptop empty).1 ≡ true
unfolding enroll_agent trim_space
enroll_test = refl

late_test : is_ok (enroll_agent env 100 "secret" "invite" laptop empty).1 ≡ false
unfolding enroll_agent trim_space
late_test = refl

abbrev web : Conn
web = record {
  minute = 3_600_000_000_001;
  host = "10.0.0.7";
  proto = "tcp";
  dst = "1.1.1.1";
  dst_port = pos 443;
  exe = "/usr/bin/curl";
  name = "";
  user = "root";
  sha256 = "";
  pid = pos 1;
  cmdline = "curl";
  container = "";
  count = pos 0;
  bytes = negsuc 4;
}

abbrev sent : EventsRequest
sent = record {
  version = "1.1";
  ips = [];
  capture = "";
  dropped = pos 0;
  conns = web ∷ web ∷ record web { proto = "icmp" } ∷ [];
  programs = [];
}

abbrev batch : Request EventsRequest
batch = record {
  authorization = "bearer secret";
  remote_addr = "10.0.0.7";
  is_tls = true;
  body = ok sent;
}

abbrev no_builds : Builds
no_builds = record { version_of = λ t. none; allowed = true }

stored_test : length (agent_events env true no_builds 3_600_000_000_002 batch at_home).0.conns ≡ 1
unfolding agent_events enroll_agent trim_space put_conns
stored_test = refl

enroll_once_example :
    ((enroll_agent (under env all_well) 30 "again" "invite" laptop with_invitation).0
      ≡ with_invitation)
    × (is_ok (enroll_agent (under env all_well) 30 "again" "invite" laptop with_invitation).1
        ≡ false)
unfolding enroll_agent trim_space
enroll_once_example =
    enroll_once env "" all_well all_well 10 30 "secret" "again" "invite" laptop laptop empty
      with_invitation (omega arith) refl
      (then_does at_home at_home with_invitation (stay at_home)
        (minted all_well 20 "other" "" "admin" 50 at_home))

revoked_stays_out_example :
    is_ok (agent_auth (under env all_well) "bearer secret" without_laptop) ≡ false
unfolding enroll_agent revoke_agent trim_space bearer hash_token
revoked_stays_out_example =
    revoked_stays_out env all_well all_well 40 1 "bearer secret" at_home without_laptop refl refl
      (stay without_laptop)

agent_events-AreSane_example :
    AreSane (agent_events env true no_builds 3_600_000_000_002 batch at_home).0.conns
unfolding enroll_agent trim_space
agent_events-AreSane_example =
    agent_events-AreSane env 3_600_000_000_002 true no_builds batch at_home tt

agent_events-Accounts_example :
    Accounts 3 (agent_events env true no_builds 3_600_000_000_002 batch at_home).1
agent_events-Accounts_example =
    agent_events-Accounts env no_builds 3_600_000_000_002 true batch sent at_home refl
