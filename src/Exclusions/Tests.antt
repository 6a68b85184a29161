-- ===== src/Exclusions/Tests.antt =====
-- The trusted list at concrete patterns.
use pmacct_suricata_analyzer.Prelude.{
  ◌≡◌, ◌↔◌, true, [], ◌∷◌, some, none, any, is_some, codes, str_eq,
}
use pmacct_suricata_analyzer.Exclusions.{Net, ip, name, Exclusion, new_exclusion_set, match}
use pmacct_suricata_analyzer.Exclusions.Regexp.{glob}
use pmacct_suricata_analyzer.Exclusions.Glob.{Matches, glob_iff}
use pmacct_suricata_analyzer.Exclusions.Trusted.{covers, match-covers}

-- Addresses stand for themselves, and a network for its own address.
abbrev plain_net : Net
plain_net = record {
  parse_addr = λ s. some s;
  parse_prefix = λ s. some s;
  masked_prefix = λ s. none;
  single_addr = λ s. none;
  contains = str_eq;
  to_lower = λ s. s;
}

glob_iff_example :
    (glob (codes "*.a.com") (codes "x.a.com") ≡ true) ↔ Matches (codes "*.a.com") (codes "x.a.com")
glob_iff_example = glob_iff (codes "*.a.com") (codes "x.a.com")

match-covers_example :
    is_some (
      match plain_net
        (new_exclusion_set plain_net (
          record { pattern = "*.a.com"; kind = name }
          ∷ record { pattern = "10.0.0.9"; kind = ip }
          ∷ []))
        "10.0.0.5"
        ("x.a.com." ∷ []))
    ≡ any
        (λ (e : Exclusion). covers plain_net "10.0.0.5" ("x.a.com." ∷ []) e e.kind)
        (record { pattern = "*.a.com"; kind = name }
          ∷ record { pattern = "10.0.0.9"; kind = ip }
          ∷ [])
match-covers_example =
    match-covers plain_net "10.0.0.5" ("x.a.com." ∷ []) (
      record { pattern = "*.a.com"; kind = name } ∷ record { pattern = "10.0.0.9"; kind = ip } ∷ [])
