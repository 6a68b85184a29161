-- ===== src/Rules/Evaluate.antt =====
-- The evaluation of one rule in backend/internal/rules/rules.go and exclusions.go: the detector's
-- findings, less the exempt and the trusted ones, completed and given the programs behind them.
use pmacct_suricata_analyzer.Prelude.{
  ℕ, Bool, false, not, ◌||◌, List, [], ◌∷◌, ◌++◌, String, none, some, Result, ok, err, ◌>>=◌,
  if◌then◌else◌, ltb, str_eq, ◌^^◌, decimal, trim_space, get, put, any, is_some,
}
use pmacct_suricata_analyzer.Prelude.Int.{back}
use pmacct_suricata_analyzer.Values.{texts}
use pmacct_suricata_analyzer.Alerts.{DbError}
use pmacct_suricata_analyzer.Alerts.Rows.{Finding}
use pmacct_suricata_analyzer.Exclusions.{Net, ExclusionSet, is_nil, is_empty, has_names, match}
use pmacct_suricata_analyzer.Rules.Types.{
  RuleError, db_error, Window, Rule, Engine, Effective, Nickname, Env,
}
use pmacct_suricata_analyzer.Rules.Config.{effective}

-- A query of the db package within the engine.
abbrev pub from_db {ℓ} : {A : Type ℓ} → Result DbError A → Result RuleError A
from_db (ok a) = ok a
from_db (err e) = err (db_error e)

abbrev pub member : String → List String → Bool
member s set = any (λ x. str_eq x s) set

-- The first loop of `resolveExempt`: addresses, and the lower-cased names.
unfoldable pub split_exempt : Net → List String → List String × List String
split_exempt n [] = ([], [])
split_exempt n (item ∷ more) =
    let (addrs, names) = split_exempt n more in
    let s = trim_space item in
    if str_eq s "" then (addrs, names) else elim (n.parse_addr s) [
      | some a ↦ (a ∷ addrs, names)
      | none ↦ (addrs, n.to_lower s ∷ names)
    ]

-- The addresses whose nickname is one of the names.
unfoldable pub named_addresses : Net → List String → List Nickname → List String
named_addresses n names [] = []
named_addresses n names (k ∷ more) =
    let rest = named_addresses n names more in
    if member (n.to_lower k.nickname) names then k.ip ∷ rest else rest

-- `resolveExempt`: the set of exempt addresses, as a list.
unfoldable pub resolve_exempt : Env → List String → Result RuleError (List String)
unfolding split_exempt named_addresses
resolve_exempt env items =
    if is_nil items
    then ok []
    else let (addrs, names) = split_exempt env.net items in
      if is_nil names
      then ok addrs
      else (from_db env.nicknames >>= λ all. ok (addrs ++ named_addresses env.net names all))

abbrev pub names_of : String → List (String × List String) → List String
names_of ip names = elim (get ip names) [ none ↦ [] | some l ↦ l ]

-- Whether the trusted list covers the finding's host or its peer.
abbrev pub is_trusted : Net → ExclusionSet → List (String × List String) → Finding → Bool
is_trusted n set names f =
    is_some (match n set f.host (names_of f.host names))
    || is_some (match n set f.peer (names_of f.peer names))

unfoldable pub untrusted :
    Net → ExclusionSet → List (String × List String) → List Finding → List Finding
untrusted n set names [] = []
untrusted n set names (f ∷ fs) =
    let rest = untrusted n set names fs in if is_trusted n set names f then rest else f ∷ rest

-- An address that is not empty and not yet listed is added at the end.
abbrev pub add_seen : String → List String → List String
add_seen ip seen = if str_eq ip "" || member ip seen then seen else seen ++ ip ∷ []

unfoldable pub addresses : List String → List Finding → List String
addresses seen [] = seen
addresses seen (f ∷ fs) = addresses (add_seen f.peer (add_seen f.host seen)) fs

-- Names are asked for only if a name pattern needs them, and so never for an empty list.
abbrev pub names_wanted :
    Env → ExclusionSet → List Finding → Result RuleError (List (String × List String))
names_wanted env set fs = if has_names set then from_db (env.names_for (addresses [] fs)) else ok []

unfoldable pub apply_exclusions : Env → List Finding → Result RuleError (List Finding)
unfolding addresses untrusted
apply_exclusions env fs = if is_nil fs || not env.has_db then ok fs else do
  set ← from_db env.exclusions
  names ← names_wanted env set fs
  ok (if is_empty set then fs else untrusted env.net set names fs)

-- What the query for the programs of a connection leaves of a finding: an error, or no program,
-- leaves it as it is.
unfoldable pub add_via : Result DbError (List String) → Finding → Finding
add_via (err _) f = f
add_via (ok via) f =
    if is_nil via then f else record f { details = put "via" (texts via) f.details }

-- One round of `attachProcesses`.
unfoldable pub attach : Env → Window → Finding → Finding
unfolding add_via
attach env w f =
    if str_eq f.host "" || str_eq f.peer ""
    then f
    else add_via (env.processes f.host f.peer f.port w) f

unfoldable pub attach_all : Env → Window → List Finding → List Finding
unfolding attach
attach_all env w [] = []
attach_all env w (f ∷ fs) = attach env w f ∷ attach_all env w fs

abbrev pub some_agents : Result DbError ℕ → Bool
some_agents (err _) = false
some_agents (ok n) = ltb 0 n

unfoldable pub attach_processes : Env → Window → List Finding → List Finding
unfolding attach_all
attach_processes env w fs =
    if is_nil fs || not env.has_db || not (some_agents env.active_agents)
    then fs
    else attach_all env w fs

abbrev with_peer : String → String → String
with_peer host peer =
    if str_eq host "" then peer else if str_eq peer "" then host else host ^^ (" → " ^^ peer)

unfoldable pub default_title : Rule → Finding → String
default_title r f =
    r.definition.title
    ^^ (": " ^^ (with_peer f.host f.peer ^^ (if ltb 0 f.port then ":" ^^ decimal f.port else "")))

-- What the engine fills in: the rule's name, and a severity and a title that are missing.
unfoldable pub complete : Rule → Effective → Finding → Finding
complete r ef f = record f {
  rule = r.definition.name;
  severity = if str_eq f.severity "" then ef.severity else f.severity;
  title =
      if str_eq f.title ""
      then default_title r (record f {
        rule = r.definition.name;
        severity = if str_eq f.severity "" then ef.severity else f.severity;
      })
      else f.title;
}

unfoldable pub not_exempt : Rule → Effective → List String → List Finding → List Finding
unfolding complete
not_exempt r ef set [] = []
not_exempt r ef set (f ∷ fs) =
    let rest = not_exempt r ef set fs in
    if member f.host set || member f.peer set then rest else complete r ef f ∷ rest

-- The window of a run that starts now.
abbrev pub window_of : ℕ → Effective → Window
window_of now ef = record { since = back now ef.window; until = now }

-- `evaluate`, less the configuration that it returns too.
unfoldable pub evaluate : Env → ℕ → Engine → Rule → Result RuleError (List Finding)
unfolding not_exempt
evaluate env now e r = do
  let ef = effective env.parse_duration e r
  findings ← r.definition.run ef.params (window_of now ef)
  set ← resolve_exempt env ef.exempt
  kept ← apply_exclusions env (not_exempt r ef set findings)
  ok (attach_processes env (window_of now ef) kept)
