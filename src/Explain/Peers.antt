-- ===== src/Explain/Peers.antt =====
-- The signals of a program's destinations (backend/internal/explain/explain.go, the loop of
-- `Assess`).
use pmacct_suricata_analyzer.Prelude.{
  ℕ, ◌+◌, ◌/◌, ◌%◌, Bool, not, ◌&&◌, ◌||◌, List, [], ◌∷◌, ◌++◌, String, Option, none, some, str_eq,
  ◌^^◌, join, decimal, is_some, length, if◌then◌else◌, ltb,
}
use pmacct_suricata_analyzer.Prelude.Int.{ℤ, pos, ltb_ℤ, leb_ℤ, eqb_ℤ}
use pmacct_suricata_analyzer.Prelude.Search.{decimal_ℤ}
use pmacct_suricata_analyzer.Explain.Types.{Infra, Destination, info, warn, critical, Signal}
use pmacct_suricata_analyzer.Explain.Facts.{signal, where_some, when}

-- `%.0f` of a number of tenths: halves go to the even neighbour.
unfoldable pub whole : ℕ → String
whole tenths =
    let q = tenths / 10 in
    let r = tenths % 10 in decimal (if ltb r 5 then q else if ltb 5 r then q + 1 else q + q % 2)

-- `%.2f` of a number of hundredths.
unfoldable pub two_places : ℕ → String
two_places n = decimal (n / 100) ^^ "." ^^ decimal (n / 10 % 10) ^^ decimal (n % 10)

abbrev pub is_common_port : ℤ → Bool
is_common_port port =
    eqb_ℤ port (pos 80)
    || eqb_ℤ port (pos 443)
    || eqb_ℤ port (pos 53)
    || eqb_ℤ port (pos 853)
    || eqb_ℤ port (pos 123)
    || eqb_ℤ port (pos 22)
    || eqb_ℤ port (pos 25)
    || eqb_ℤ port (pos 465)
    || eqb_ℤ port (pos 587)
    || eqb_ℤ port (pos 993)
    || eqb_ℤ port (pos 995)
    || eqb_ℤ port (pos 8080)
    || eqb_ℤ port (pos 8443)
    || eqb_ℤ port (pos 5228)
    || eqb_ℤ port (pos 3478)
    || eqb_ℤ port (pos 5222)

-- A rented, unrecognised or private network.
abbrev pub is_odd_network : Infra → Bool
is_odd_network i = str_eq i.class "hosting" || str_eq i.class "unknown" || str_eq i.class "isp"

abbrev pub is_unique : Destination → Bool
is_unique d = eqb_ℤ d.other_hosts (pos 0) && eqb_ℤ d.other_program_count (pos 0)

abbrev pub place : Destination → String
place d = if str_eq d.hostname "" then d.dst else d.hostname ^^ " (" ^^ d.dst ^^ ")"

abbrev pub items : Option (List String) → List String
items none = []
items (some xs) = xs

unfoldable pub reputation_signals : Destination → List Signal
reputation_signals d =
    when (ltb 0 (length (items d.lists)))
      (signal critical (place d ^^ " is on threat list(s) " ^^ join ", " (items d.lists) ^^ "."))
    ++ (when (leb_ℤ (pos 2) d.vt_malicious) (
          signal critical (
            place d
            ^^ " is flagged malicious by "
            ^^ decimal_ℤ d.vt_malicious
            ^^ " VirusTotal engines."))
        ++ when (ltb 0 (length d.reputation))
            (signal warn (place d ^^ " has a bad reputation: " ^^ join ", " d.reputation ^^ ".")))

unfoldable pub beacon_signals : Destination → List Signal
unfolding whole two_places
beacon_signals d = where_some d.beacon (λ b. signal warn (
    "Contacts "
    ^^ place d
    ^^ " every ~"
    ^^ whole b.gap_tenths
    ^^ " min with very regular timing ("
    ^^ decimal b.contacts
    ^^ " times, gap CV "
    ^^ two_places b.cv_hundredths
    ^^ ") — beacon-like."))

-- A destination that only this program contacts and that has no name; its lists must be nil.
unfoldable pub unique_signals : Destination → List Signal
unique_signals d =
    when (is_unique d && is_odd_network d.infra && str_eq d.hostname "" && not (is_some d.lists)) (
      signal warn (
        d.dst ^^ " (" ^^ d.infra.label
        ^^ ") is contacted only by this program, has no reverse DNS and sits on a " ^^ d.infra.class
        ^^ " network — worth identifying."))

unfoldable pub port_signals : Destination → List Signal
port_signals d =
    when (not (is_common_port d.port) && str_eq d.proto "tcp" && is_odd_network d.infra) (
      signal info (
        place d
        ^^ " uses an uncommon port "
        ^^ decimal_ℤ d.port
        ^^ "/"
        ^^ d.proto
        ^^ " on a "
        ^^ d.infra.label
        ^^ " network."))

unfoldable pub alert_signals : Destination → List Signal
alert_signals d = when (ltb_ℤ (pos 0) d.open_alerts) (
    signal warn (
      place d
      ^^ " already has "
      ^^ decimal_ℤ d.open_alerts
      ^^ " open alert(s): "
      ^^ join "; " d.alert_titles
      ^^ "."))

-- One round of the loop over the destinations; a trusted one is passed over.
unfoldable pub destination_signals : Destination → List Signal
unfolding reputation_signals beacon_signals unique_signals port_signals alert_signals
destination_signals d =
    if not (str_eq d.trusted "")
    then []
    else reputation_signals d
      ++ (beacon_signals d ++ (unique_signals d ++ (port_signals d ++ alert_signals d)))

unfoldable pub all_destination_signals : List Destination → List Signal
all_destination_signals [] = []
all_destination_signals (d ∷ ds) = destination_signals d ++ all_destination_signals ds
