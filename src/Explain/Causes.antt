-- ===== src/Explain/Causes.antt =====
-- What makes a program suspicious or worth a review, told from the facts alone
-- (backend/internal/explain/explain.go, `Assess` and `identitySignals`).
use pmacct_suricata_analyzer.Prelude.{
  Bool, false, not, ◌&&◌, ◌||◌, List, Option, none, some, str_eq, any, is_some, length, ltb,
}
use pmacct_suricata_analyzer.Prelude.Int.{pos, ltb_ℤ, leb_ℤ}
use pmacct_suricata_analyzer.Prelude.Search.{has_suffix}
use pmacct_suricata_analyzer.Explain.Types.{Identity, FileIntel, Program, Destination, Style}
use pmacct_suricata_analyzer.Explain.Facts.{suspicious_path, or_zero, is_unvouched}
use pmacct_suricata_analyzer.Explain.Program.{unknown_owner, has_risk}
use pmacct_suricata_analyzer.Explain.Peers.{items, is_unique, is_odd_network}

-- A test of a value that is there.
abbrev pub some_is {ℓ} : {A : Type ℓ} → (A → Bool) → Option A → Bool
some_is p none = false
some_is p (some a) = p a

-- The file was changed after it was installed or signed.
abbrev pub is_tampered : Identity → Bool
is_tampered id = some_is not id.verified || str_eq id.signature "invalid"

abbrev pub is_detected : FileIntel → Bool
is_detected f = str_eq f.vt.status "ok" && leb_ℤ (pos 3) (or_zero f.vt.malicious)

-- The file is malware by three engines or by the registry.
abbrev pub is_malware : FileIntel → Bool
is_malware f = is_detected f || str_eq f.mhr.status "listed"

-- The address is not trusted, and stands on a threat list or is flagged by two engines.
abbrev pub is_hostile : Destination → Bool
is_hostile d =
    str_eq d.trusted "" && (ltb 0 (length (items d.lists)) || leb_ℤ (pos 2) d.vt_malicious)

abbrev pub is_core_process : Program → Bool
is_core_process p = not (unknown_owner p) && has_risk "no-network" p.known

abbrev pub is_danger : Program → List Destination → Bool
is_danger p ds =
    is_core_process p
    || (some_is is_tampered p.identity || (some_is is_malware p.file || any is_hostile ds))

-- A utility that is known for abuse, from the knowledge base or from a catalogue.
abbrev pub is_utility : Program → Bool
is_utility p = not (unknown_owner p) && has_risk "lolbin" p.known

abbrev pub is_catalogued : Program → Bool
is_catalogued p = is_some p.lolbin && not (has_risk "lolbin" p.known)

-- Nobody vouches for the file; of a location, this is said where its path does not say it.
abbrev pub is_unowned : Style → Program → Identity → Bool
is_unowned style p id =
    str_eq id.origin "unpackaged"
    || ((str_eq id.origin "tmp" || str_eq id.origin "download")
        && not (suspicious_path style p.exe))

abbrev pub is_unsigned : Identity → Bool
is_unsigned id = str_eq id.signature "unsigned" || str_eq id.signature "untrusted"

-- One engine or two flag the file, or nobody has seen it and nobody vouches for it.
abbrev pub is_doubted : Program → FileIntel → Bool
is_doubted p f =
    (str_eq f.vt.status "ok"
      && (leb_ℤ (pos 1) (or_zero f.vt.malicious) && not (leb_ℤ (pos 3) (or_zero f.vt.malicious))))
    || (str_eq f.vt.status "unknown" && is_unvouched p.identity)

-- An account of the system runs a program that is not known.
abbrev pub is_privileged : Style → Program → Bool
is_privileged style p =
    (str_eq (style.to_lower p.user) "root"
      || has_suffix (style.to_lower p.user) "\\system"
      || str_eq (style.to_lower p.user) "system")
    && not (is_some p.known)

-- Only this program contacts the address, it has no name, and its lists are nil.
abbrev pub is_lone : Destination → Bool
is_lone d = is_unique d && is_odd_network d.infra && str_eq d.hostname "" && not (is_some d.lists)

-- The address is not trusted, and something about it is worth a look.
abbrev pub is_doubtful : Destination → Bool
is_doubtful d =
    str_eq d.trusted ""
    && (ltb 0 (length d.reputation)
        || (is_some d.beacon || (is_lone d || ltb_ℤ (pos 0) d.open_alerts)))

abbrev pub is_caution : Style → Program → List Destination → Bool
is_caution style p ds =
    is_utility p
    || (is_catalogued p
        || (suspicious_path style p.exe
            || (some_is (λ id. is_unowned style p id || is_unsigned id) p.identity
                || (some_is (is_doubted p) p.file
                    || (ltb 1 (length p.hashes)
                        || (is_privileged style p || any is_doubtful ds))))))
