-- ===== src/Rules/Findings.antt =====
-- What a rule's evaluation lets through (backend/internal/rules/rules.go, `evaluate`, and
-- exclusions.go).
use pmacct_suricata_analyzer.Prelude.{
  ℕ, ◌≡◌, ◌≢◌, ◌⊎◌, if◌then◌else◌, ap, sym, ◌∙◌, refl, true, false, not, ◌||◌, List, [], ◌∷◌, ◌++◌,
  String, Result, ok, err, inl, inr, arith, >>=-eq-ok, ok-injective, Bool-cases, str_eq, eq_iff,
  All, put, any-append,
}
use pmacct_suricata_analyzer.Values.{texts, Params}
use pmacct_suricata_analyzer.Alerts.{DbError}
use pmacct_suricata_analyzer.Alerts.Rows.{Finding}
use pmacct_suricata_analyzer.Exclusions.{Net, ExclusionSet, is_nil, is_empty, has_names}
use pmacct_suricata_analyzer.Rules.Types.{RuleError, Window, Rule, Engine, Effective, Env}
use pmacct_suricata_analyzer.Rules.Config.{effective}
use pmacct_suricata_analyzer.Rules.Evaluate.{
  member, resolve_exempt, is_trusted, untrusted, apply_exclusions, add_via, from_db, some_agents,
  attach, attach_all, attach_processes, complete, not_exempt, window_of, evaluate, names_wanted,
  addresses, add_seen,
}

ok-All :
    (P : Finding → Type 0) {fs gs : List Finding}
    → ◌≡◌ {A = Result RuleError (List Finding)} (ok fs) (ok gs)
    → All P fs
    → All P gs
ok-All P e h = rw (← (ok-injective e)) h

-- Attaching programs changes nothing but the details.
module _ (P : Finding → Type 0)
    (blind : (f : Finding) (ds : Params) → P f → P (record f { details = ds })) where
  add_via-All : (r : Result DbError (List String)) (f : Finding) → P f → P (add_via r f)
  unfolding add_via
  add_via-All (err _) f h = h
  add_via-All (ok via) f h = elim (Bool-cases (is_nil via)) [
    | inl e ↦ rw e h
    | inr e ↦ rw e (blind f (put "via" (texts via) f.details) h)
  ]

  attach-All : (env : Env) (w : Window) (f : Finding) → P f → P (attach env w f)
  unfolding attach
  attach-All env w f h = elim (Bool-cases (str_eq f.host "" || str_eq f.peer "")) [
    | inl e ↦ rw e h
    | inr e ↦ rw e (add_via-All (env.processes f.host f.peer f.port w) f h)
  ]

  attach_all-All :
      (env : Env) (w : Window) (fs : List Finding) → All P fs → All P (attach_all env w fs)
  unfolding attach_all
  attach_all-All env w [] h = tt
  attach_all-All env w (f ∷ fs) (q, h) = (attach-All env w f q, attach_all-All env w fs h)

  attach_processes-All :
      (env : Env) (w : Window) (fs : List Finding) → All P fs → All P (attach_processes env w fs)
  unfolding attach_processes
  attach_processes-All env w fs h =
      elim (Bool-cases (is_nil fs || not env.has_db || not (some_agents env.active_agents))) [
        | inl e ↦ rw e h
        | inr e ↦ rw e (attach_all-All env w fs h)
      ]

-- The trusted list only drops findings.
untrusted-All :
    (P : Finding → Type 0) (n : Net) (set : ExclusionSet) (names : List (String × List String))
    (fs : List Finding)
    → All P fs
    → All P (untrusted n set names fs)
unfolding untrusted
untrusted-All P n set names [] h = tt
untrusted-All P n set names (f ∷ fs) (q, h) = elim (Bool-cases (is_trusted n set names f)) [
  | inl e ↦ rw e (untrusted-All P n set names fs h)
  | inr e ↦ rw e (q, untrusted-All P n set names fs h)
]

apply_exclusions-All :
    (P : Finding → Type 0) (env : Env) (fs : List Finding) {kept : List Finding}
    → All P fs
    → apply_exclusions env fs ≡ ok kept
    → All P kept
unfolding apply_exclusions
apply_exclusions-All P env fs h e = elim (Bool-cases (is_nil fs || not env.has_db)) [
  | inl skip ↦ ok-All P (rw skip at e) h
  | inr go ↦
      let (set, _, e₁) = >>=-eq-ok (from_db env.exclusions) _ (rw go at e) in
      let (names, _, e₂) = >>=-eq-ok (names_wanted env set fs) _ e₁ in
      elim (Bool-cases (is_empty set)) [
        | inl none_listed ↦ ok-All P (rw none_listed at e₂) h
        | inr some_listed ↦ ok-All P (rw some_listed at e₂) (untrusted-All P env.net set names fs h)
      ]
]

-- A finding of the rule whose host and peer are not in the exempt set, and that has a severity.
pub record IsReported (r : Rule) (set : List String) (f : Finding) : Type 0 where
  pub rule : f.rule ≡ r.definition.name
  pub host : member f.host set ≡ false
  pub peer : member f.peer set ≡ false
  pub severity : f.severity ≢ ""

not_exempt-IsReported :
    (r : Rule) (ef : Effective) (set : List String) (fs : List Finding)
    → ef.severity ≢ ""
    → All (IsReported r set) (not_exempt r ef set fs)
unfolding not_exempt complete
not_exempt-IsReported r ef set [] h = tt
not_exempt-IsReported r ef set (f ∷ fs) h =
    elim (Bool-cases (member f.host set || member f.peer set)) [
      | inl e ↦ rw e (not_exempt-IsReported r ef set fs h)
      | inr e ↦ rw e (
        record {
          rule = refl;
          host = ground arith;
          peer = ground arith;
          severity = ground (arith, eq_iff f.severity "");
        },
        not_exempt-IsReported r ef set fs h,
      )
    ]

-- Every finding that an evaluation returns carries the rule's name and a severity, and neither its
-- host nor its peer is in the set that the rule's exempt hosts resolve to, provided that the rule's
-- effective severity is not empty.
pub evaluate-IsReported :
    (env : Env) (now : ℕ) (e : Engine) (r : Rule) {fs : List Finding}
    → (effective env.parse_duration e r).severity ≢ ""
    → evaluate env now e r ≡ ok fs
    → (set : List String) × (resolve_exempt env (effective env.parse_duration e r).exempt ≡ ok set)
      × All (IsReported r set) fs
unfolding evaluate
evaluate-IsReported env now e r h k =
    let ef = effective env.parse_duration e r in
    let (found, _, k₁) = >>=-eq-ok (r.definition.run ef.params (window_of now ef)) _ k in
    let (set, s, k₂) = >>=-eq-ok (resolve_exempt env ef.exempt) _ k₁ in
    let (kept, a, k₃) = >>=-eq-ok (apply_exclusions env (not_exempt r ef set found)) _ k₂ in
    (
      set,
      s,
      ok-All (IsReported r set) k₃ (
          attach_processes-All (IsReported r set)
            (λ f ds p. record {
              rule = p.rule;
              host = p.host;
              peer = p.peer;
              severity = p.severity;
            })
            env (window_of now ef) kept
            (apply_exclusions-All (IsReported r set) env (not_exempt r ef set found)
              (not_exempt-IsReported r ef set found h) a)),
    )

untrusted-none :
    (n : Net) (set : ExclusionSet) (names : List (String × List String)) (fs : List Finding)
    → All (λ f. is_trusted n set names f ≡ false) (untrusted n set names fs)
unfolding untrusted
untrusted-none n set names [] = tt
untrusted-none n set names (f ∷ fs) = elim (Bool-cases (is_trusted n set names f)) [
  | inl e ↦ rw e (untrusted-none n set names fs)
  | inr e ↦ rw e (e, untrusted-none n set names fs)
]

-- The names that the trusted list is matched with: those asked for the addresses `seen` if a name
-- pattern needs them, and none else.
pub record AreNames (env : Env) (set : ExclusionSet) (seen : List String)
    (names : List (String × List String)) : Type 0 where
  pub asked : (if has_names set then from_db (env.names_for seen) else ok []) ≡ ok names

-- An address that a finding has, or has not, is one that names are asked for.
abbrev pub Asked : List String → String → Type 0
Asked seen ip = (ip ≡ "") ⊎ (member ip seen ≡ true)

-- A finding that passes the trusted list, whose two ends names were asked for.
pub record Passes (env : Env) (set : ExclusionSet) (seen : List String)
    (names : List (String × List String)) (f : Finding) : Type 0 where
  pub untrusted : is_trusted env.net set names f ≡ false
  pub host : Asked seen f.host
  pub peer : Asked seen f.peer

member-append :
    (ip : String) (seen more : List String)
    → member ip seen ≡ true
    → member ip (seen ++ more) ≡ true
member-append ip seen more h = rw (any-append (λ x. str_eq x ip) seen more, h)

member-end : (ip : String) (seen : List String) → member ip (seen ++ ip ∷ []) ≡ true
member-end ip seen =
    ground (arith, any-append (λ x. str_eq x ip) seen (ip ∷ []), (eq_iff ip ip).1 refl)

add_seen-Asked : (ip : String) (seen : List String) → Asked (add_seen ip seen) ip
add_seen-Asked ip seen = elim (Bool-cases (str_eq ip "")) [
  | inl e ↦ inl ((eq_iff ip "").0 e)
  | inr e ↦ elim (Bool-cases (member ip seen)) [
    | inl k ↦ inr (rw (e, k) k)
    | inr k ↦ inr (rw (e, k) (member-end ip seen))
  ]
]

add_seen-keeps :
    (ip other : String) (seen : List String) → Asked seen ip → Asked (add_seen other seen) ip
add_seen-keeps ip other seen (inl e) = inl e
add_seen-keeps ip other seen (inr h) = elim (Bool-cases (str_eq other "" || member other seen)) [
  | inl k ↦ inr (rw k h)
  | inr k ↦ inr (rw k (member-append ip seen (other ∷ []) h))
]

addresses-keeps :
    (ip : String) (fs : List Finding) (seen : List String)
    → Asked seen ip
    → Asked (addresses seen fs) ip
unfolding addresses
addresses-keeps ip [] seen h = h
addresses-keeps ip (f ∷ fs) seen h =
    addresses-keeps ip fs _ (add_seen-keeps ip f.peer _ (add_seen-keeps ip f.host seen h))

addresses-All :
    (fs : List Finding) (seen : List String)
    → All (λ f. Asked (addresses seen fs) f.host × Asked (addresses seen fs) f.peer) fs
unfolding addresses
addresses-All [] seen = tt
addresses-All (f ∷ fs) seen = (
  (
    addresses-keeps f.host fs _ (add_seen-keeps f.host f.peer _ (add_seen-Asked f.host seen)),
    addresses-keeps f.peer fs _ (add_seen-Asked f.peer (add_seen f.host seen)),
  ),
  addresses-All fs _,
)

Passes-All :
    (env : Env) (set : ExclusionSet) (seen : List String) (names : List (String × List String))
    (fs : List Finding)
    → All (λ f. is_trusted env.net set names f ≡ false) fs
    → All (λ f. Asked seen f.host × Asked seen f.peer) fs
    → All (Passes env set seen names) fs
Passes-All env set seen names [] h k = tt
Passes-All env set seen names (f ∷ fs) (u, h) ((host, peer), k) =
    (record { untrusted = u; host = host; peer = peer }, Passes-All env set seen names fs h k)

nil_of : (fs : List Finding) → is_nil fs ≡ true → fs ≡ []
nil_of [] h = refl
nil_of (f ∷ fs) h = cc

apply_exclusions-untrusted :
    (env : Env) (set : ExclusionSet) (given : List Finding) {kept : List Finding}
    → env.has_db ≡ true
    → env.exclusions ≡ ok set
    → is_empty set ≡ false
    → apply_exclusions env given ≡ ok kept
    → (kept ≡ [])
      ⊎ ((seen : List String) × (names : List (String × List String)) × AreNames env set seen names
          × All (Passes env set seen names) kept)
unfolding apply_exclusions
apply_exclusions-untrusted env set given db loaded listed a =
    elim (Bool-cases (is_nil given || not env.has_db)) [
      | inl skip ↦
          let same : given ≡ _ = ok-injective (rw skip at a) in
          inl (sym same ∙ nil_of given (ground arith))
      | inr go ↦
          let (names, asked, a₁) =
            >>=-eq-ok (names_wanted env set given) _ (rw (go, loaded) at a) in
          inr (
            addresses [] given,
            names,
            record { asked = asked },
            ok-All (Passes env set (addresses [] given) names) (rw listed at a₁) (
                Passes-All env set (addresses [] given) names _
                  (untrusted-none env.net set names given)
                  (untrusted-All _ env.net set names given (addresses-All given []))),
          )
    ]

attach_processes-nil : (env : Env) (w : Window) → attach_processes env w [] ≡ []
unfolding attach_processes
attach_processes-nil env w = refl

-- With a database and a trusted list that is not empty, an evaluation that succeeds returns no
-- finding, or returns no finding whose host or peer the trusted list covers by address, network or
-- name; where a name pattern needs names, they are those that the database has for a list of
-- addresses in which the host and the peer of every returned finding stand, unless empty.
pub evaluate-untrusted :
    (env : Env) (now : ℕ) (e : Engine) (r : Rule) (set : ExclusionSet) {fs : List Finding}
    → env.has_db ≡ true
    → env.exclusions ≡ ok set
    → is_empty set ≡ false
    → evaluate env now e r ≡ ok fs
    → (fs ≡ [])
      ⊎ ((seen : List String) × (names : List (String × List String)) × AreNames env set seen names
          × All (Passes env set seen names) fs)
unfolding evaluate
evaluate-untrusted env now e r set db loaded listed k =
    let ef = effective env.parse_duration e r in
    let (found, _, k₁) = >>=-eq-ok (r.definition.run ef.params (window_of now ef)) _ k in
    let (ex, _, k₂) = >>=-eq-ok (resolve_exempt env ef.exempt) _ k₁ in
    let (kept, a, k₃) = >>=-eq-ok (apply_exclusions env (not_exempt r ef ex found)) _ k₂ in
    elim (apply_exclusions-untrusted env set (not_exempt r ef ex found) db loaded listed a) [
      | inl e₀ ↦ inl (
          sym (ok-injective k₃)
          ∙ (ap (attach_processes env (window_of now ef)) e₀
              ∙ attach_processes-nil env (window_of now ef)))
      | inr (seen, names, asked, h) ↦ inr (
        seen,
        names,
        asked,
        ok-All (Passes env set seen names) k₃ (
            attach_processes-All (Passes env set seen names)
              (λ f ds p. record { untrusted = p.untrusted; host = p.host; peer = p.peer }) env
              (window_of now ef) kept h),
      )
    ]
