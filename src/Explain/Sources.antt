-- ===== src/Explain/Sources.antt =====
-- What a report is made of: the request, the answers of the queries and small readers of them
-- (backend/internal/explain/explain.go and backend/internal/db/explain.go).
use pmacct_suricata_analyzer.Prelude.{
  ℕ, Bool, false, List, [], ◌∷◌, String, Option, none, some, Result, ok, err, str_eq, ◌^^◌,
  trim_space, length, ltb, if◌then◌else◌, join,
}
use pmacct_suricata_analyzer.Prelude.Int.{ℤ}
use pmacct_suricata_analyzer.Alerts.{DbError}
use pmacct_suricata_analyzer.Exclusions.{Net, ExclusionSet}
use pmacct_suricata_analyzer.Explain.Types.{Identity, FileIntel, LolBin, Known, Beacon}
use pmacct_suricata_analyzer.Explain.Facts.{catalogue_name}

pub record Request : Type 0 where
  pub agent_id : ℤ
  pub host : String
  pub exe : String
  pub user : String
  pub container : String
  pub since : ℕ
  pub until : ℕ

-- `ProgramSummary`, `ProgramDest` and `DestContext` of db/explain.go.
pub record Summary : Type 0 where
  pub conns : ℤ
  pub first_in_window : Option ℕ
  pub first_ever : Option ℕ
  pub last_ever : Option ℕ
  pub hashes : List String
  pub names : List String
  pub hosts : List String
  pub agents : ℤ
  pub pids : List ℤ
  pub cmdline : String

pub record ProgramDest : Type 0 where
  pub dst : String
  pub dst_port : ℤ
  pub proto : String
  pub conns : ℤ
  pub bytes : ℤ
  pub first : ℕ
  pub last : ℕ
  pub minutes : List ℕ

pub record DestContext : Type 0 where
  pub other_programs : List String
  pub other_program_count : ℤ
  pub other_hosts : ℤ
  pub open_alerts : ℤ
  pub alert_titles : List String
  pub ids_events : ℤ
  pub notes : ℤ

-- The columns of an address that are read; `vt` is the number of engines, where there is a result.
pub record IpInfo : Type 0 where
  pub hostname : Option String
  pub asn : Option String
  pub as_org : Option String
  pub isp : Option String
  pub org : Option String
  pub country_code : Option String
  pub is_hosting : Option Bool
  pub is_proxy : Option Bool
  pub vt : Option ℤ

pub record RepRow : Type 0 where
  pub source : String
  pub flagged : Bool
  pub score : Option ℤ

pub record AgentRow : Type 0 where
  pub id : ℤ
  pub os : String
  pub name : String

-- The queries of the db package, the user's entry that fits a program (`ListKB` and `MatchKB`), with
-- its id, the look-up of names by the resolver, and `Beaconish`, which computes with floats.
pub record Sources : Type 0 where
  pub net : Net
  pub summary : Request → Result DbError Summary
  pub user_entry : String → String → List String → Result DbError (Option (Known × ℤ))
  pub agent_by_id : ℤ → Option AgentRow
  pub agent_for_host : String → Option AgentRow
  pub identity : ℤ → String → Result DbError (Option Identity)
  pub file_intel : String → Result DbError (Option FileIntel)
  pub lolbin : String → String → Result DbError (Option LolBin)
  pub destinations : Request → Result DbError (List ProgramDest)
  pub exclusions : Option ExclusionSet
  pub ip_info : String → Result DbError (Option IpInfo)
  pub ip_names : String → Result DbError (List String)
  pub reverse_names : String → List String
  pub threat_lists : String → Result DbError (List String)
  pub reputation : String → Result DbError (List RepRow)
  pub context : String → List String → Result DbError DestContext
  pub beacon : List ℕ → Option Beacon

-- What a query found; an error counts as nothing.
abbrev pub found {ℓ} : {A : Type ℓ} → Result DbError (Option A) → Option A
found (ok o) = o
found (err _) = none

abbrev pub listed {ℓ} : {A : Type ℓ} → Result DbError (List A) → List A
listed (ok xs) = xs
listed (err _) = []

abbrev pub str_of : Option String → String
str_of none = ""
str_of (some s) = trim_space s

-- `firstOf`.
abbrev pub first_text : List (Option String) → String
first_text [] = ""
first_text (o ∷ os) = let later = first_text os in if str_eq (str_of o) "" then later else str_of o

abbrev pub bool_of : Option Bool → Bool
bool_of none = false
bool_of (some b) = b

-- `KnownFromLOLBin`.
unfoldable pub known_from_lolbin : LolBin → Known
unfolding catalogue_name
known_from_lolbin l = record {
  title = "System utility listed by " ^^ catalogue_name l.source ^^ " (" ^^ l.display ^^ ")";
  category = "lolbin";
  description = trim_space (
      if ltb 0 (length l.functions)
      then l.description ^^ " Abusable for: " ^^ join ", " l.functions ^^ "."
      else l.description);
  expected =
      "Normally nothing, or only what an administrator drives it to do; outbound connections from it deserve a look.";
  verify = [];
  risk = "lolbin";
}
