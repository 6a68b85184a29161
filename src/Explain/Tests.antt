-- ===== src/Explain/Tests.antt =====
-- A report on one program with one destination, built and assessed.
use pmacct_suricata_analyzer.Prelude.{
  ◌≡◌, refl, ◌≤◌, false, [], ◌∷◌, ◌++◌, none, some, ok, err, Result, All, keep, count_where,
  if◌then◌else◌, str_eq,
}
use pmacct_suricata_analyzer.Prelude.Int.{pos}
use pmacct_suricata_analyzer.Alerts.{DbError, failed}
use pmacct_suricata_analyzer.Exclusions.{Net}
use pmacct_suricata_analyzer.Explain.Types.{Report, Style, expected, review, suspicious}
use pmacct_suricata_analyzer.Explain.Peers.{unique_signals}
use pmacct_suricata_analyzer.Explain.Assess.{assess, gathered, is_critical, is_warn}
use pmacct_suricata_analyzer.Explain.Sources.{Request, Summary, ProgramDest, Sources}
use pmacct_suricata_analyzer.Explain.Build.{build}
use pmacct_suricata_analyzer.Explain.Built.{build-no_unique}
use pmacct_suricata_analyzer.Explain.Causes.{is_danger, is_caution}
use pmacct_suricata_analyzer.Explain.Levels.{assess-level}
use pmacct_suricata_analyzer.Explain.Order.{
  is_info, without_trusted, assess-order, assess-untrusted,
}

abbrev style : Style
style = record { to_lower = λ s. s; equal_fold = str_eq; minute = λ t. ""; month = λ t. "" }

abbrev plain_net : Net
plain_net = record {
  parse_addr = λ s. some s;
  parse_prefix = λ s. none;
  masked_prefix = λ s. none;
  single_addr = λ s. none;
  contains = λ n a. false;
  to_lower = λ s. s;
}

abbrev request : Request
request = record {
  agent_id = pos 0;
  host = "10.0.0.5";
  exe = "/tmp/x";
  user = "bob";
  container = "";
  since = 0;
  until = 9;
}

abbrev summary : Summary
summary = record {
  conns = pos 1;
  first_in_window = none;
  first_ever = none;
  last_ever = none;
  hashes = [];
  names = "x" ∷ [];
  hosts = [];
  agents = pos 1;
  pids = [];
  cmdline = "";
}

abbrev peer : ProgramDest
peer = record {
  dst = "1.2.3.4";
  dst_port = pos 4444;
  proto = "tcp";
  conns = pos 1;
  bytes = pos 9;
  first = 1;
  last = 2;
  minutes = 1 ∷ [];
}

abbrev sources : Sources
sources = record {
  net = plain_net;
  summary = λ r. ok summary;
  user_entry = λ n e h. ok none;
  agent_by_id = λ i. none;
  agent_for_host = λ h. none;
  identity = λ i e. ok none;
  file_intel = λ h. ok none;
  lolbin = λ n o. ok none;
  destinations = λ r. ok (peer ∷ []);
  exclusions = none;
  ip_info = λ a. ok none;
  ip_names = λ a. ok [];
  reverse_names = λ a. [];
  threat_lists = λ a. ok ("feodo" ∷ []);
  reputation = λ a. ok [];
  context = λ a h. err failed;
  beacon = λ m. none;
}

abbrev nothing : Report
nothing = record {
  program = record {
    name = "";
    exe = "";
    user = "";
    container = "";
    os = "";
    machine = "";
    hashes = [];
    hosts = [];
    agents = pos 0;
    conns = pos 0;
    destinations = 0;
    first_seen = none;
    last_seen = none;
    first_in_window = none;
    pids = [];
    cmdline = "";
    known = none;
    known_source = "";
    known_id = pos 0;
    identity = none;
    file = none;
    lolbin = none;
  };
  destinations = [];
  signals = [];
  assessment = record { level = expected; summary = "" };
  verify = [];
  since = 0;
  until = 0;
  generated_at = 0;
}

abbrev report_of : Result DbError Report → Report
report_of (ok rep) = rep
report_of (err _) = nothing

abbrev built : Report
built = report_of (build style sources 10 request)

is_built : build style sources 10 request ≡ ok built
unfolding build
is_built = refl

build-no_unique_example : All (λ d. unique_signals d ≡ []) built.destinations
build-no_unique_example = build-no_unique style sources 10 request is_built

assess-level_example : (assess style 10 built).assessment.level ≡ (
    if is_danger built.program built.destinations
    then suspicious
    else if is_caution style built.program built.destinations
    then review
    else expected)
assess-level_example = assess-level style 10 built

assess-order_example :
    (assess style 10 built).signals
    ≡ keep is_critical (gathered style 10 built)
      ++ (keep is_warn (gathered style 10 built) ++ keep is_info (gathered style 10 built))
assess-order_example = assess-order style 10 built

assess-untrusted_example :
    ((assess style 10 (without_trusted built)).signals ≡ (assess style 10 built).signals)
    × ((assess style 10 (without_trusted built)).assessment ≡ (assess style 10 built).assessment)
assess-untrusted_example = assess-untrusted style 10 built

-- On a threat list: suspicious.
built_level : built.assessment.level ≡ suspicious
unfolding build assess pmacct_suricata_analyzer.Explain.KnowledgeBase.lookup_known
    pmacct_suricata_analyzer.Prelude.trim_space pmacct_suricata_analyzer.Prelude.Search.trim_suffix
    pmacct_suricata_analyzer.Prelude.Search.path_base
    pmacct_suricata_analyzer.Prelude.Search.replace_char
    pmacct_suricata_analyzer.Prelude.Search.contains
    pmacct_suricata_analyzer.Explain.Facts.identity_signals
    pmacct_suricata_analyzer.Prelude.Search.has_suffix
    pmacct_suricata_analyzer.Explain.Peers.destination_signals
    pmacct_suricata_analyzer.Explain.Gather.describe_destination
    pmacct_suricata_analyzer.Explain.Gather.with_facts
    pmacct_suricata_analyzer.Explain.Gather.with_rdns
    pmacct_suricata_analyzer.Explain.Gather.known_destination
    pmacct_suricata_analyzer.Explain.Network.classify pmacct_suricata_analyzer.Prelude.join
built_level = refl
