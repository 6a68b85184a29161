-- ===== src/Explain/Types.antt =====
-- The data of a report on a program (backend/internal/explain/explain.go, known.go, infra.go and
-- cadence.go) and the facts it is made of (backend/internal/db/identity.go).
use pmacct_suricata_analyzer.Prelude.{ℕ, Bool, List, String, Option}
use pmacct_suricata_analyzer.Prelude.Int.{ℤ}

-- `ProgramIdentity`.
pub record Identity : Type 0 where
  pub agent_id : ℤ
  pub exe : String
  pub sha256 : String
  pub sha1 : String
  pub md5 : String
  pub size : ℤ
  pub modified : Option ℕ
  pub origin : String
  pub package_name : String
  pub package_version : String
  pub verified : Option Bool
  pub signature : String
  pub signer : String
  pub company : String
  pub product : String
  pub file_version : String
  pub description : String
  pub note : String
  pub first_reported : ℕ
  pub last_reported : ℕ

pub record FileVt : Type 0 where
  pub status : String
  pub malicious : Option ℤ
  pub suspicious : Option ℤ
  pub harmless : Option ℤ
  pub undetected : Option ℤ
  pub label : String
  pub names : List String
  pub signers : List String
  pub kind : String
  pub first_seen : Option ℕ
  pub last_analysis : Option ℕ
  pub error : Option String

pub record FileMhr : Type 0 where
  pub status : String
  pub detection : Option ℤ
  pub last_seen : Option ℕ
  pub error : Option String

pub record FileIntel : Type 0 where
  pub sha256 : String
  pub sha1 : String
  pub md5 : String
  pub priority : ℤ
  pub vt : FileVt
  pub vt_lookup_at : Option ℕ
  pub vt_attempts : ℤ
  pub mhr : FileMhr
  pub mhr_lookup_at : Option ℕ

pub record LolBin : Type 0 where
  pub source : String
  pub name : String
  pub display : String
  pub description : String
  pub functions : List String
  pub paths : List String
  pub mitre : List String
  pub url : String

pub record Known : Type 0 where
  pub title : String
  pub category : String
  pub description : String
  pub expected : String
  pub verify : List String
  pub risk : String

pub record Infra : Type 0 where
  pub class : String
  pub label : String
  pub note : String

-- The mean gap in tenths of a minute and the variation in hundredths, as they are rounded.
pub record Beacon : Type 0 where
  pub contacts : ℕ
  pub gap_tenths : ℕ
  pub cv_hundredths : ℕ

pub record Program : Type 0 where
  pub name : String
  pub exe : String
  pub user : String
  pub container : String
  pub os : String
  pub machine : String
  pub hashes : List String
  pub hosts : List String
  pub agents : ℤ
  pub conns : ℤ
  pub destinations : ℕ
  pub first_seen : Option ℕ
  pub last_seen : Option ℕ
  pub first_in_window : Option ℕ
  pub pids : List ℤ
  pub cmdline : String
  pub known : Option Known
  pub known_source : String
  pub known_id : ℤ
  pub identity : Option Identity
  pub file : Option FileIntel
  pub lolbin : Option LolBin

-- `lists` is `none` where the slice is nil.
pub record Destination : Type 0 where
  pub dst : String
  pub port : ℤ
  pub proto : String
  pub service : String
  pub conns : ℤ
  pub bytes : ℤ
  pub first : ℕ
  pub last : ℕ
  pub hostname : String
  pub names : List String
  pub asn : String
  pub org : String
  pub country : String
  pub hosting : Bool
  pub proxy : Bool
  pub infra : Infra
  pub lists : Option (List String)
  pub vt_malicious : ℤ
  pub reputation : List String
  pub other_programs : List String
  pub other_program_count : ℤ
  pub other_hosts : ℤ
  pub open_alerts : ℤ
  pub alert_titles : List String
  pub ids_events : ℤ
  pub notes : ℤ
  pub trusted : String
  pub beacon : Option Beacon
  pub flags : List String

-- `Level` of a `Signal`, which is a text there.
pub data Level : Type 0 where
  info warn critical : Level

pub record Signal : Type 0 where
  pub level : Level
  pub text : String

-- `Level` of an `Assessment`.
pub data Verdict : Type 0 where
  expected review suspicious : Verdict

pub record Assessment : Type 0 where
  pub level : Verdict
  pub summary : String

pub record Report : Type 0 where
  pub program : Program
  pub destinations : List Destination
  pub signals : List Signal
  pub assessment : Assessment
  pub verify : List String
  pub since : ℕ
  pub until : ℕ
  pub generated_at : ℕ

-- What is given: `to_lower` is `strings.ToLower`, `equal_fold` `strings.EqualFold`, and the others
-- the formats "Jan 2 15:04" and "Jan 2006" of a time.
pub record Style : Type 0 where
  pub to_lower : String → String
  pub equal_fold : String → String → Bool
  pub minute : ℕ → String
  pub month : ℕ → String
