-- ===== src/Exclusions.antt =====
-- The trusted list (backend/internal/db/exclusions.go): normalising a pattern, compiling the list,
-- and matching an address and the names known for it.
pub mod Regexp
pub mod Glob
pub mod Trusted
mod Tests
use pmacct_suricata_analyzer.Prelude.{
  ℕ, Bool, true, false, not, ◌&&◌, ◌||◌, List, [], ◌∷◌, ◌++◌, String, Option, none, some, Result,
  ok, err, if◌then◌else◌, leb, ◌==◌, str_eq, trim_space, is_some, get, put, any, find, codes,
  trim_suffix_dot,
}
use Regexp.{glob}

-- What the code takes from Go's `netip` and `strings`: `parse_addr` is `ParseAddr` followed by
-- `Unmap().String()`; `parse_prefix` is `ParsePrefix`, the network in text, and `masked_prefix` the
-- same with its address unmapped and masked; `single_addr` is `Addr().String()` of a network that
-- `IsSingleIP`; `contains` is `Prefix.Contains` of a network and an address, both in text;
-- `to_lower` is `strings.ToLower`.
pub record Net : Type 0 where
  pub parse_addr : String → Option String
  pub parse_prefix : String → Option String
  pub masked_prefix : String → Option String
  pub single_addr : String → Option String
  pub contains : String → String → Bool
  pub to_lower : String → String

pub data Kind : Type 0 where
  ip cidr name : Kind

pub data PatternError : Type 0 where
  empty_pattern bad_pattern : PatternError

-- `[a-z0-9*]` and `[a-z0-9*._-]`.
abbrev starts_name : ℕ → Bool
starts_name c = (leb b'a' c && leb c b'z') || (leb b'0' c && leb c b'9') || c == b'*'

abbrev in_name : ℕ → Bool
in_name c = starts_name c || c == b'.' || c == b'_' || c == b'-'

abbrev all_in_name : List ℕ → Bool
all_in_name [] = true
all_in_name (c ∷ cs) = in_name c && all_in_name cs

-- `namePatternRe`.
abbrev pub is_name_pattern : List ℕ → Bool
is_name_pattern [] = false
is_name_pattern (c ∷ cs) = starts_name c && all_in_name cs

-- `strings.Trim(p, "*.") == ""`: the text holds nothing but stars and dots.
abbrev pub only_wildcards : List ℕ → Bool
only_wildcards [] = true
only_wildcards (c ∷ cs) = (c == b'*' || c == b'.') && only_wildcards cs

abbrev normalize_name : String → Result PatternError (String × Kind)
normalize_name p =
    if not (is_name_pattern (codes p)) || only_wildcards (codes p)
    then err bad_pattern
    else ok (p, name)

abbrev prefix_or_addr : String → Option String → String × Kind
prefix_or_addr net none = (net, cidr)
prefix_or_addr net (some a) = (a, ip)

unfoldable pub normalize_exclusion : Net → String → Result PatternError (String × Kind)
normalize_exclusion n pattern =
    let p = trim_space pattern in
    if str_eq p "" then err empty_pattern else elim (n.parse_addr p) [
      | some a ↦ ok (a, ip)
      | none ↦ elim (n.masked_prefix p) [
        | some net ↦ ok (prefix_or_addr net (n.single_addr net))
        | none ↦ normalize_name (n.to_lower (trim_suffix_dot p))
      ]
    ]

pub record Exclusion : Type 0 where
  pub pattern : String
  pub kind : Kind

-- The compiled list. A network and a name pattern stand for their text; the regular expression
-- of a name pattern is compiled by `glob`, where it is run.
pub record ExclusionSet : Type 0 where
  pub ips : List (String × String)
  pub cidrs : List (String × String)
  pub names : List String

add_exclusion : Net → Exclusion → Kind → ExclusionSet → ExclusionSet
add_exclusion n e ip s = record s { ips = put e.pattern e.pattern s.ips }
add_exclusion n e cidr s = elim (n.parse_prefix e.pattern) [
  | some net ↦ record s { cidrs = s.cidrs ++ (net, e.pattern) ∷ [] }
  | none ↦ s
]
add_exclusion n e name s = record s { names = s.names ++ e.pattern ∷ [] }

compile_from : Net → ExclusionSet → List Exclusion → ExclusionSet
compile_from n s [] = s
compile_from n s (e ∷ list) = compile_from n (add_exclusion n e e.kind s) list

abbrev pub no_exclusions : ExclusionSet
no_exclusions = record { ips = []; cidrs = []; names = [] }

unfoldable pub new_exclusion_set : Net → List Exclusion → ExclusionSet
unfolding compile_from add_exclusion
new_exclusion_set n list = compile_from n no_exclusions list

abbrev pub is_nil {ℓ} : {A : Type ℓ} → List A → Bool
is_nil [] = true
is_nil (_ ∷ _) = false

unfoldable pub is_empty : ExclusionSet → Bool
is_empty s = is_nil s.ips && is_nil s.cidrs && is_nil s.names

unfoldable pub has_names : ExclusionSet → Bool
has_names s = not (is_nil s.names)

unfoldable pub covering : Net → String → List (String × String) → Option String
covering n a [] = none
covering n a ((net, pattern) ∷ cidrs) =
    if n.contains net a then some pattern else covering n a cidrs

-- `MatchIP`: the pattern that covers an address.
unfoldable pub match_ip : Net → ExclusionSet → String → Option String
match_ip n s a = if str_eq a "" then none else elim (n.parse_addr a) [
  | none ↦ none
  | some c ↦ elim (get c s.ips) [ some p ↦ some p | none ↦ covering n c s.cidrs ]
]

-- The name as it is compared: trimmed, without the last dot, in lower case.
abbrev pub plain_name : Net → String → String
plain_name n s = n.to_lower (trim_suffix_dot (trim_space s))

abbrev pub name_matches : String → String → Bool
name_matches s pattern = glob (codes pattern) (codes s)

unfoldable pub match_names : Net → List String → List String → Option String
match_names n patterns [] = none
match_names n patterns (s ∷ more) =
    if str_eq (plain_name n s) ""
    then match_names n patterns more
    else elim (find (name_matches (plain_name n s)) patterns) [
      | some p ↦ some p
      | none ↦ match_names n patterns more
    ]

unfoldable pub match : Net → ExclusionSet → String → List String → Option String
match n s a known = elim (match_ip n s a) [
  | some p ↦ some p
  | none ↦ if is_nil s.names then none else match_names n s.names known
]
