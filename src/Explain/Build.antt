-- ===== src/Explain/Build.antt =====
-- Gathering the facts of a report (backend/internal/explain/explain.go, `Build`).
use pmacct_suricata_analyzer.Prelude.{
  ℕ, not, ◌&&◌, List, [], ◌∷◌, ◌++◌, String, Option, none, some, Result, ok, ◌>>=◌, str_eq, length,
  if◌then◌else◌,
}
use pmacct_suricata_analyzer.Prelude.Int.{ℤ, pos, ltb_ℤ}
use pmacct_suricata_analyzer.Prelude.Search.{replace_char, path_base}
use pmacct_suricata_analyzer.Alerts.{DbError}
use pmacct_suricata_analyzer.Explain.Types.{
  Identity, FileIntel, LolBin, Known, Program, Report, Style, expected,
}
use pmacct_suricata_analyzer.Explain.KnowledgeBase.{lookup_known}
use pmacct_suricata_analyzer.Explain.Assess.{assess}
use pmacct_suricata_analyzer.Explain.Verify.{verify_commands}
use pmacct_suricata_analyzer.Explain.Sources.{
  Request, Summary, AgentRow, Sources, found, known_from_lolbin,
}
use pmacct_suricata_analyzer.Explain.Gather.{describe_all}

unfoldable pub program_name : Summary → String → String
program_name sum exe =
    let seen : String = elim sum.names [ [] ↦ "" | n ∷ _ ↦ n ] in
    let named =
      if str_eq seen "" && not (str_eq exe "")
      then path_base (replace_char b'\\' "/" exe)
      else seen in
    if str_eq named "" then "(unknown process)" else named

-- The entry that knows the program: the user's own first, then the built-in one.
unfoldable pub known_program :
    Style → Sources → String → String → List String → Option Known × String × ℤ
known_program style src name exe hashes =
    if str_eq exe "" then (none, "", pos 0) else elim (found (src.user_entry name exe hashes)) [
      | some (k, id) ↦ (some k, "user", id)
      | none ↦ elim (lookup_known style name exe) [
        | some k ↦ (some k, "builtin", pos 0)
        | none ↦ (none, "", pos 0)
      ]
    ]

-- The machine, for the commands to verify with.
unfoldable pub agent_of : Sources → Request → Option AgentRow
agent_of src req =
    if ltb_ℤ (pos 0) req.agent_id
    then src.agent_by_id req.agent_id
    else if str_eq req.host ""
    then none
    else src.agent_for_host req.host

-- The first hash that is known.
unfoldable pub first_file : Sources → List String → Option FileIntel
first_file src [] = none
first_file src (h ∷ hs) =
    let later = first_file src hs in
    if str_eq h ""
    then later
    else elim (found (src.file_intel h)) [ some f ↦ some f | none ↦ later ]

abbrev pub hash_of : Option Identity → List String
hash_of none = []
hash_of (some id) = id.sha256 ∷ []

unfoldable pub identity_of : Sources → Option AgentRow → String → Option Identity
identity_of src none exe = none
identity_of src (some a) exe = if str_eq exe "" then none else found (src.identity a.id exe)

unfoldable pub lolbin_of : Sources → String → String → Option LolBin
lolbin_of src name os = if str_eq name "(unknown process)" then none else found (src.lolbin name os)

-- A catalogue's entry stands in where nothing else knows the program.
abbrev pub or_lolbin : Option Known × String × ℤ → Option LolBin → Option Known × String × ℤ
or_lolbin (some k, source, id) l = (some k, source, id)
or_lolbin (none, source, id) none = (none, source, id)
or_lolbin (none, source, id) (some l) = (some (known_from_lolbin l), l.source, id)

unfoldable pub describe_program : Style → Sources → Request → Summary → Program
unfolding program_name known_program agent_of first_file identity_of lolbin_of
describe_program style src req sum =
    let name = program_name sum req.exe in
    let agent = agent_of src req in
    let os : String = elim agent [ none ↦ "" | some a ↦ a.os ] in
    let id = identity_of src agent req.exe in
    let lolbin = lolbin_of src name os in
    let (known, source, known_id) =
      or_lolbin (known_program style src name req.exe sum.hashes) lolbin in
    record {
      name = name;
      exe = req.exe;
      user = req.user;
      container = req.container;
      os = os;
      machine = elim agent [ none ↦ "" | some a ↦ a.name ];
      hashes = sum.hashes;
      hosts = sum.hosts;
      agents = sum.agents;
      conns = sum.conns;
      destinations = 0;
      first_seen = sum.first_ever;
      last_seen = sum.last_ever;
      first_in_window = sum.first_in_window;
      pids = sum.pids;
      cmdline = sum.cmdline;
      known = known;
      known_source = source;
      known_id = known_id;
      identity = id;
      file = first_file src (hash_of id ++ sum.hashes);
      lolbin = lolbin;
    }

-- The hosts of the program, which are no other hosts.
abbrev pub own_hosts : Request → Summary → List String
own_hosts req sum = if str_eq req.host "" then sum.hosts else sum.hosts ++ req.host ∷ []

-- `Build`.
unfoldable pub build : Style → Sources → ℕ → Request → Result DbError Report
unfolding describe_program describe_all
build style src now req = do
  sum ← src.summary req
  dests ← src.destinations req
  let p = describe_program style src req sum
  let rep = assess style now (record {
    program = record p { destinations = length dests };
    destinations = (describe_all style src (own_hosts req sum) dests 0).0;
    signals = [];
    assessment = record { level = expected; summary = "" };
    verify = [];
    since = req.since;
    until = req.until;
    generated_at = now;
  })
  ok (record rep { verify = verify_commands style rep })
