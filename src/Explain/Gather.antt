-- ===== src/Explain/Gather.antt =====
-- Gathering the facts about a destination (backend/internal/explain/explain.go, the loop of `Build`).
use pmacct_suricata_analyzer.Prelude.{
  ℕ, ◌+◌, false, ◌&&◌, List, [], ◌∷◌, ◌++◌, String, Option, none, some, Result, ok, err, str_eq,
  ◌^^◌, ltb, if◌then◌else◌,
}
use pmacct_suricata_analyzer.Prelude.Int.{pos, eqb_ℤ}
use pmacct_suricata_analyzer.Prelude.Search.{decimal_ℤ}
use pmacct_suricata_analyzer.Alerts.{DbError}
use pmacct_suricata_analyzer.Exclusions.{match}
use pmacct_suricata_analyzer.Explain.Types.{Beacon, Destination, Style}
use pmacct_suricata_analyzer.Explain.Facts.{or_zero}
use pmacct_suricata_analyzer.Explain.Services.{service_name}
use pmacct_suricata_analyzer.Explain.Network.{classify}
use pmacct_suricata_analyzer.Explain.Sources.{
  ProgramDest, DestContext, IpInfo, RepRow, Sources, found, listed, str_of, first_text, bool_of,
}

-- A destination as the loop starts it; its lists are empty and not nil.
unfoldable pub new_destination : Style → ProgramDest → Destination
new_destination style pd = record {
  dst = pd.dst;
  port = pd.dst_port;
  proto = pd.proto;
  service = service_name pd.dst_port;
  conns = pd.conns;
  bytes = pd.bytes;
  first = pd.first;
  last = pd.last;
  hostname = "";
  names = [];
  asn = "";
  org = "";
  country = "";
  hosting = false;
  proxy = false;
  infra = classify style "" "" "" "";
  lists = some [];
  vt_malicious = pos 0;
  reputation = [];
  other_programs = [];
  other_program_count = pos 0;
  other_hosts = pos 0;
  open_alerts = pos 0;
  alert_titles = [];
  ids_events = pos 0;
  notes = pos 0;
  trusted = "";
  beacon = none;
  flags = [];
}

unfoldable pub with_info : Style → Option IpInfo → Destination → Destination
with_info style none d = d
with_info style (some info) d = record d {
  hostname = str_of info.hostname;
  asn = str_of info.asn;
  org = first_text (info.as_org ∷ info.org ∷ info.isp ∷ []);
  country = str_of info.country_code;
  hosting = bool_of info.is_hosting;
  proxy = bool_of info.is_proxy;
  vt_malicious = or_zero info.vt;
  infra =
      classify style (str_of info.org) (str_of info.isp) (str_of info.as_org)
        (str_of info.hostname);
}

-- The name that the resolver gives.
unfoldable pub with_name : Style → List String → Destination → Destination
with_name style [] d = d
with_name style (n ∷ _) d = record d {
  hostname = n;
  flags = d.flags ++ "rdns-live" ∷ [];
  infra = if str_eq d.infra.class "unknown" then classify style "" "" "" n else d.infra;
}

-- A destination with no name is looked up, fifteen times in a report at most.
unfoldable pub with_rdns : Style → Sources → Destination × ℕ → Destination × ℕ
unfolding with_name
with_rdns style src (d, lookups) =
    if str_eq d.hostname "" && ltb lookups 15
    then (with_name style (src.reverse_names d.dst) d, lookups + 1)
    else (d, lookups)

abbrev pub with_lists : List String → Destination → Destination
with_lists [] d = d
with_lists (l ∷ ls) d = record d { lists = some (l ∷ ls) }

-- What one flagged answer says.
unfoldable pub remark : RepRow → String
remark r =
    let flagged = r.source ^^ " flagged" in
    elim r.score [
      | none ↦ flagged
      | some n ↦
          if str_eq r.source "abuseipdb"
          then "AbuseIPDB " ^^ decimal_ℤ n ^^ "%"
          else if str_eq r.source "otx"
          then "OTX " ^^ decimal_ℤ n ^^ " pulse(s)"
          else flagged
    ]

unfoldable pub remarks : List RepRow → List String
unfolding remark
remarks [] = []
remarks (r ∷ rs) = let later = remarks rs in if r.flagged then remark r ∷ later else later

unfoldable pub with_trust : Sources → Destination → Destination
with_trust src d = elim src.exclusions [
  | none ↦ d
  | some set ↦ elim (match src.net set d.dst (d.hostname ∷ d.names)) [
    | none ↦ d
    | some p ↦ record d { trusted = p }
  ]
]

abbrev pub with_context : Result DbError DestContext → Destination → Destination
with_context (err _) d = d
with_context (ok c) d = record d {
  other_programs = c.other_programs;
  other_program_count = c.other_program_count;
  other_hosts = c.other_hosts;
  open_alerts = c.open_alerts;
  alert_titles = c.alert_titles;
  ids_events = c.ids_events;
  notes = c.notes;
}

abbrev pub with_beacon : Option Beacon → Destination → Destination
with_beacon none d = d
with_beacon (some b) d = record d { beacon = some b; flags = d.flags ++ "beacon-like" ∷ [] }

abbrev pub with_uniqueness : Destination → Destination
with_uniqueness d =
    if eqb_ℤ d.other_hosts (pos 0) && eqb_ℤ d.other_program_count (pos 0)
    then record d { flags = d.flags ++ "unique-to-this-program" ∷ [] }
    else d

-- What follows the look-up of the name.
unfoldable pub with_facts : Sources → List String → List ℕ → Destination → Destination
unfolding remarks with_trust
with_facts src hosts minutes d =
    let listed_d = with_lists (listed (src.threat_lists d.dst)) d in
    let rated = record listed_d { reputation = remarks (listed (src.reputation d.dst)) } in
    let trusted_d = with_trust src rated in
    with_uniqueness
      (with_beacon (src.beacon minutes) (with_context (src.context d.dst hosts) trusted_d))

-- What is known of a destination before its name is looked up.
unfoldable pub known_destination : Style → Sources → ProgramDest → Destination
unfolding new_destination with_info
known_destination style src pd =
    let d = with_info style (found (src.ip_info pd.dst)) (new_destination style pd) in
    record d { names = listed (src.ip_names pd.dst) }

-- One round of the loop, with the number of look-ups made so far.
unfoldable pub describe_destination :
    Style → Sources → List String → ProgramDest → ℕ → Destination × ℕ
describe_destination style src hosts pd lookups =
    let (d, lookups') = with_rdns style src (known_destination style src pd, lookups) in
    (with_facts src hosts pd.minutes d, lookups')

unfoldable pub describe_all :
    Style → Sources → List String → List ProgramDest → ℕ → List Destination × ℕ
describe_all style src hosts [] lookups = ([], lookups)
describe_all style src hosts (pd ∷ pds) lookups =
    let (d, lookups') = describe_destination style src hosts pd lookups in
    let (ds, lookups'') = describe_all style src hosts pds lookups' in (d ∷ ds, lookups'')
