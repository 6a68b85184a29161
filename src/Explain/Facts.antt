-- ===== src/Explain/Facts.antt =====
-- The signals from the agent's facts about the file and from the look-ups of its hash
-- (backend/internal/explain/explain.go, `identitySignals`, `suspiciousPath`, `catalogueName`).
use pmacct_suricata_analyzer.Prelude.{
  Bool, true, false, not, ◌&&◌, ◌||◌, List, [], ◌∷◌, ◌++◌, String, Option, none, some, str_eq, ◌^^◌,
  has_prefix, any, if◌then◌else◌,
}
use pmacct_suricata_analyzer.Prelude.Int.{ℤ, pos, ◌+ℤ◌, leb_ℤ}
use pmacct_suricata_analyzer.Prelude.Search.{contains, replace_char, decimal_ℤ}
use pmacct_suricata_analyzer.Explain.Types.{
  Identity, FileVt, FileMhr, Program, Level, info, warn, critical, Signal, Style,
}

-- One call of `add`.
abbrev pub signal : Level → String → List Signal
signal level text = record { level = level; text = text } ∷ []

-- The signals of a value that is there.
abbrev pub where_some {ℓ} : {A : Type ℓ} → Option A → (A → List Signal) → List Signal
where_some none f = []
where_some (some a) f = f a

abbrev pub when : Bool → List Signal → List Signal
when test signals = if test then signals else []

abbrev pub or_else : String → String → String
or_else s default = if str_eq s "" then default else s

abbrev odd_places : List String
odd_places =
    "/tmp/" ∷ "/dev/shm/" ∷ "/var/tmp/" ∷ "/.cache/" ∷ "/downloads/" ∷ "/appdata/local/temp/"
    ∷ "/temp/" ∷ "/recycle" ∷ "/programdata/temp" ∷ []

unfoldable pub suspicious_path : Style → String → Bool
suspicious_path style exe = any (contains (style.to_lower (replace_char b'\\' "/" exe))) odd_places

unfoldable pub catalogue_name : String → String
catalogue_name source =
    if str_eq source "lolbas"
    then "LOLBAS"
    else if str_eq source "gtfobins"
    then "GTFOBins"
    else source

-- The package that owns the file, and whether it still matches the manifest.
unfoldable pub package_signals : Identity → List Signal
package_signals id =
    let ver = if str_eq id.package_version "" then "" else " " ^^ id.package_version in
    elim id.verified [
      | some false ↦ signal critical (
          "The file differs from what package " ^^ id.package_name ^^ ver ^^ " installed ("
          ^^ id.origin ^^ " manifest mismatch) — a modified or replaced binary.")
      | some true ↦ signal info (
          "Installed by " ^^ id.origin ^^ " package " ^^ id.package_name ^^ ver
          ^^ "; the file matches the package manifest.")
      | none ↦ when (not (str_eq id.package_name "") && not (str_eq id.origin "container")) (
          signal info
            ("Installed by " ^^ id.origin ^^ " package " ^^ id.package_name ^^ ver ^^ "."))
    ]

unfoldable pub origin_signals : Style → String → Identity → List Signal
unfolding suspicious_path
origin_signals style exe id =
    if str_eq id.origin "unpackaged"
    then signal warn (
        "No package owns this file (" ^^ exe
        ^^ ") — it was placed there by hand, an installer script, or something else.")
    else if str_eq id.origin "tmp" || str_eq id.origin "download"
    then when (not (suspicious_path style exe)) (
        signal warn (
          "Runs from a temporary/download location (" ^^ exe
          ^^ ") — legitimate software rarely runs from there."))
    else if str_eq id.origin "home"
    then signal info
        "Lives in a user's home directory — a personal build or manual download, not managed by the system."
    else if str_eq id.origin "container"
    then signal info (
        "Runs inside container " ^^ id.package_name
        ^^ "; identify it by the image, not by the host's packages.")
    else []

unfoldable pub signature_signals : Identity → List Signal
signature_signals id =
    if str_eq id.signature "valid"
    then signal info (
        "Authenticode signature valid — signed by "
        ^^ or_else id.signer "an unnamed certificate"
        ^^ (if has_prefix id.note "catalog" then " (Windows security catalog)" else "")
        ^^ ".")
    else if str_eq id.signature "unsigned"
    then signal warn (
        "Not digitally signed"
        ^^ (if str_eq id.company ""
            then ""
            else " even though the version resource names " ^^ id.company)
        ^^ " — established vendors sign their releases, so an unsigned binary needs another reason to be trusted.")
    else if str_eq id.signature "untrusted"
    then signal warn (
        "Signed by "
        ^^ or_else id.signer "unknown signer"
        ^^ ", but the certificate chain is not trusted on this machine ("
        ^^ id.note
        ^^ ") — a self-signed, expired or unknown-root certificate.")
    else if str_eq id.signature "invalid"
    then signal critical
        "The digital signature is INVALID — the file was modified after signing, or its certificate was revoked."
    else []

abbrev pub or_zero : Option ℤ → ℤ
or_zero none = pos 0
or_zero (some n) = n

-- The engines that answered.
unfoldable pub total_engines : FileVt → ℤ
total_engines vt =
    pos 0
    +ℤ or_zero vt.malicious
    +ℤ or_zero vt.suspicious
    +ℤ or_zero vt.harmless
    +ℤ or_zero vt.undetected

unfoldable pub detection_signals : Style → FileVt → List Signal
unfolding total_engines
detection_signals style vt =
    let m = decimal_ℤ (or_zero vt.malicious) in
    let total = decimal_ℤ (total_engines vt) in
    let label = if str_eq vt.label "" then "" else " (" ^^ vt.label ^^ ")" in
    if leb_ℤ (pos 3) (or_zero vt.malicious)
    then signal critical
        (m ^^ " of " ^^ total ^^ " VirusTotal engines flag this file as malicious" ^^ label ^^ ".")
    else if leb_ℤ (pos 1) (or_zero vt.malicious)
    then signal warn (
        m ^^ " of " ^^ total ^^ " VirusTotal engines flag this file" ^^ label
        ^^ " — likely a false positive, but check the vendor names.")
    else signal info (
        "VirusTotal: 0 of "
        ^^ total
        ^^ " engines flag this file"
        ^^ elim vt.first_seen [ none ↦ "" | some t ↦ ", first submitted " ^^ style.month t ]
        ^^ ".")

-- A file that nobody vouches for.
abbrev pub is_unvouched : Option Identity → Bool
is_unvouched none = false
is_unvouched (some id) =
    str_eq id.signature "unsigned"
    || str_eq id.signature "untrusted"
    || str_eq id.origin "unpackaged"
    || str_eq id.origin "tmp"
    || str_eq id.origin "download"

unfoldable pub virus_total_signals : Style → Option Identity → FileVt → List Signal
unfolding detection_signals
virus_total_signals style id vt =
    if str_eq vt.status "ok"
    then detection_signals style vt
    else if str_eq vt.status "unknown"
    then signal (if is_unvouched id then warn else info)
        "This exact file has never been submitted to VirusTotal — no other party has seen it."
    else []

unfoldable pub registry_signals : FileMhr → List Signal
registry_signals mhr = when (str_eq mhr.status "listed") (
    signal critical (
      "Team Cymru's Malware Hash Registry lists this file as known malware"
      ^^ elim mhr.detection [
        | none ↦ ""
        | some pct ↦ "; " ^^ decimal_ℤ pct ^^ "% of AV engines detect it"
      ]
      ^^ "."))

-- `identitySignals`.
unfoldable pub identity_signals : Style → Program → List Signal
identity_signals style p =
    where_some p.identity
      (λ id. package_signals id ++ (origin_signals style p.exe id ++ signature_signals id))
    ++ where_some p.file (λ f. virus_total_signals style p.identity f.vt ++ registry_signals f.mhr)
