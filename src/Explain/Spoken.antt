-- ===== src/Explain/Spoken.antt =====
-- What each part of `Assess` says of the facts (backend/internal/explain/explain.go).
use mathlib.Core.Bool.{or_assoc, false-or, or-false}
use pmacct_suricata_analyzer.Prelude.{
  ℕ, ◌≡◌, refl, ◌∙◌, Bool, false, not, ◌||◌, List, [], ◌∷◌, ◌++◌, Option, none, some, str_eq, any,
  any-append, is_some, length, ltb, arith, Bool-cases, Option-cases, inl, inr, str_eq_apart,
}
use pmacct_suricata_analyzer.Prelude.Int.{pos, ltb_ℤ, leb_ℤ}
use pmacct_suricata_analyzer.Explain.Types.{
  Identity, FileIntel, Known, Program, Destination, Signal, Style,
}
use pmacct_suricata_analyzer.Explain.Facts.{
  suspicious_path, package_signals, origin_signals, signature_signals, detection_signals,
  virus_total_signals, registry_signals, identity_signals, where_some,
}
use pmacct_suricata_analyzer.Explain.Program.{
  unknown_owner, known_signals, owner_signals, lolbin_signals, path_signals, history_signals,
  user_signals, program_signals,
}
use pmacct_suricata_analyzer.Explain.Peers.{
  items, reputation_signals, beacon_signals, unique_signals, port_signals, alert_signals,
  destination_signals, all_destination_signals,
}
use pmacct_suricata_analyzer.Explain.Assess.{is_critical, is_warn}
use pmacct_suricata_analyzer.Explain.Causes.{
  some_is, is_tampered, is_detected, is_malware, is_hostile, is_core_process, is_utility,
  is_catalogued, is_unowned, is_unsigned, is_doubted, is_privileged, is_lone, is_doubtful,
}

-- What the signals of one part of the code say: whether one is critical, and whether one warns.
pub record Says (signals : List Signal) (danger caution : Bool) : Type 0 where
  pub criticals : any is_critical signals ≡ danger
  pub warnings : any is_warn signals ≡ caution

pub Says-append :
    {xs ys : List Signal} {a b c d : Bool}
    → Says xs a b
    → Says ys c d
    → Says (xs ++ ys) (a || c) (b || d)
Says-append {xs} {ys} h k = record {
  criticals = rw (any-append is_critical xs ys, h.criticals, k.criticals);
  warnings = rw (any-append is_warn xs ys, h.warnings, k.warnings);
}

Says-some :
    {A : Type 0} (f : A → List Signal) (p q : A → Bool) (o : Option A)
    → ((a : A) → Says (f a) (p a) (q a))
    → Says (where_some o f) (some_is p o) (some_is q o)
Says-some f p q none h = record { criticals = refl; warnings = refl }
Says-some f p q (some a) h = h a

known-Says :
    (p : Program) (k : Known)
    → Says (known_signals p k) (str_eq k.risk "no-network") (str_eq k.risk "lolbin")
unfolding known_signals
known-Says p k = elim (Option-cases p.lolbin) [
  | inl e ↦ rw e (ground (arith, str_eq_apart k.risk "no-network" "lolbin" refl))
  | inr (l, e) ↦ rw e (ground (arith, str_eq_apart k.risk "no-network" "lolbin" refl))
]

owner-Says :
    (style : Style) (p : Program) → Says (owner_signals style p) (is_core_process p) (is_utility p)
unfolding owner_signals
owner-Says style p = elim (Bool-cases (unknown_owner p)) [
  | inl e ↦ rw e (record { criticals = refl; warnings = refl })
  | inr e ↦ elim (Option-cases p.known) [
    | inl k ↦ rw (e, k) (record { criticals = refl; warnings = refl })
    | inr (k, known) ↦ rw (e, known) (known-Says p k)
  ]
]

lolbin-Says : (p : Program) → Says (lolbin_signals p) false (is_catalogued p)
unfolding lolbin_signals
lolbin-Says p = ground arith

path-Says :
    (style : Style) (p : Program) → Says (path_signals style p) false (suspicious_path style p.exe)
unfolding path_signals
path-Says style p = ground arith

package-Says : (id : Identity) → Says (package_signals id) (some_is not id.verified) false
unfolding package_signals
package-Says id = ground arith

origin-Says :
    (style : Style) (p : Program) (id : Identity)
    → Says (origin_signals style p.exe id) false (is_unowned style p id)
unfolding origin_signals
origin-Says style p id = ground (
  arith,
  str_eq_apart id.origin "unpackaged" "tmp" refl,
  str_eq_apart id.origin "unpackaged" "download" refl,
)

signature-Says :
    (id : Identity) → Says (signature_signals id) (str_eq id.signature "invalid") (is_unsigned id)
unfolding signature_signals
signature-Says id = ground (
  arith,
  str_eq_apart id.signature "valid" "invalid" refl,
  str_eq_apart id.signature "valid" "unsigned" refl,
  str_eq_apart id.signature "valid" "untrusted" refl,
  str_eq_apart id.signature "unsigned" "invalid" refl,
  str_eq_apart id.signature "untrusted" "invalid" refl,
)

virus_total-Says :
    (style : Style) (p : Program) (f : FileIntel)
    → Says (virus_total_signals style p.identity f.vt) (is_detected f) (is_doubted p f)
unfolding virus_total_signals detection_signals
virus_total-Says style p f = ground (arith, str_eq_apart f.vt.status "ok" "unknown" refl)

registry-Says : (f : FileIntel) → Says (registry_signals f.mhr) (str_eq f.mhr.status "listed") false
unfolding registry_signals
registry-Says f = ground arith

history-Says :
    (style : Style) (now : ℕ) (p : Program)
    → Says (history_signals style now p) false (ltb 1 (length p.hashes))
unfolding history_signals
history-Says style now p = ground arith

user-Says :
    (style : Style) (p : Program) → Says (user_signals style p) false (is_privileged style p)
unfolding user_signals
user-Says style p = ground arith

reputation-Says :
    (d : Destination)
    → Says
        (reputation_signals d)
        (ltb 0 (length (items d.lists)) || leb_ℤ (pos 2) d.vt_malicious)
        (ltb 0 (length d.reputation))
unfolding reputation_signals
reputation-Says d = ground arith

beacon-Says : (d : Destination) → Says (beacon_signals d) false (is_some d.beacon)
unfolding beacon_signals
beacon-Says d = ground arith

unique-Says : (d : Destination) → Says (unique_signals d) false (is_lone d)
unfolding unique_signals
unique-Says d = ground arith

port-Says : (d : Destination) → Says (port_signals d) false false
unfolding port_signals
port-Says d = ground arith

alert-Says : (d : Destination) → Says (alert_signals d) false (ltb_ℤ (pos 0) d.open_alerts)
unfolding alert_signals
alert-Says d = ground arith

-- What is said is told up to an equation of the two answers.
pub Says-as : {xs : List Signal} {a b c d : Bool} → Says xs a b → a ≡ c → b ≡ d → Says xs c d
Says-as h p q = record { criticals = h.criticals ∙ p; warnings = h.warnings ∙ q }

destination-Says : (d : Destination) → Says (destination_signals d) (is_hostile d) (is_doubtful d)
unfolding destination_signals
destination-Says d = elim (Bool-cases (str_eq d.trusted "")) [
  | inr e ↦ rw e (record { criticals = refl; warnings = refl })
  | inl e ↦
      let spoken = Says-append (reputation-Says d) (
        Says-append (beacon-Says d)
          (Says-append (unique-Says d) (Says-append (port-Says d) (alert-Says d)))) in
      rw e (Says-as spoken (ground arith) refl)
]

pub destinations-Says :
    (ds : List Destination)
    → Says (all_destination_signals ds) (any is_hostile ds) (any is_doubtful ds)
unfolding all_destination_signals
destinations-Says [] = record { criticals = refl; warnings = refl }
destinations-Says (d ∷ ds) = Says-append (destination-Says d) (destinations-Says ds)

identity-Says :
    (style : Style) (p : Program)
    → Says
        (identity_signals style p)
        (some_is is_tampered p.identity || some_is is_malware p.file)
        (some_is (λ id. is_unowned style p id || is_unsigned id) p.identity
          || some_is (is_doubted p) p.file)
unfolding identity_signals
identity-Says style p =
    Says-append
      (Says-some _ _ _ p.identity (λ id.
        Says-append (package-Says id) (Says-append (origin-Says style p id) (signature-Says id))))
      (Says-some _ _ _ p.file (λ f.
        Says-as (Says-append (virus_total-Says style p f) (registry-Says f)) refl (ground arith)))

pub program-Says :
    (style : Style) (now : ℕ) (p : Program)
    → Says
        (program_signals style now p)
        (is_core_process p || (some_is is_tampered p.identity || some_is is_malware p.file))
        (is_utility p
          || (is_catalogued p
              || (suspicious_path style p.exe
                  || (some_is (λ id. is_unowned style p id || is_unsigned id) p.identity
                      || (some_is (is_doubted p) p.file
                          || (ltb 1 (length p.hashes) || is_privileged style p))))))
unfolding program_signals
program-Says style now p =
    let spoken = Says-append (owner-Says style p) (
      Says-append (lolbin-Says p) (
        Says-append (path-Says style p) (
          Says-append (identity-Says style p)
            (Says-append (history-Says style now p) (user-Says style p))))) in
    Says-as spoken (simp (false-or, or-false)) (simp (or_assoc))
