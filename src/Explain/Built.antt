-- ===== src/Explain/Built.antt =====
-- What every report that `Build` makes has (backend/internal/explain/explain.go).
use mathlib.Core.Bool.{or-false}
use pmacct_suricata_analyzer.Alerts.{DbError}
use pmacct_suricata_analyzer.Prelude.{
  ℕ, ◌+◌, ◌≤◌, ◌≡◌, refl, Bool, true, false, ◌&&◌, List, [], ◌∷◌, String, Option, none, some,
  Result, ok, err, >>=-eq-ok, ok-injective, str_eq, any, any-append, is_some, ◌∙◌, sym, ap, All-map,
  arith, All, count_where, Bool-cases, inl, inr, if◌then◌else◌, ltb,
}
use pmacct_suricata_analyzer.Explain.Types.{Destination, Report, Style, Beacon}
use pmacct_suricata_analyzer.Explain.Peers.{is_unique, unique_signals}
use pmacct_suricata_analyzer.Explain.Sources.{Request, ProgramDest, Sources, DestContext, listed}
use pmacct_suricata_analyzer.Explain.Gather.{
  known_destination, with_name, with_rdns, remarks, with_lists, with_trust, with_context,
  with_beacon, with_uniqueness, with_facts, describe_destination, describe_all,
}
use pmacct_suricata_analyzer.Explain.Assess.{assess}
use pmacct_suricata_analyzer.Explain.Build.{build, own_hosts}

abbrev pub is_live : Destination → Bool
is_live d = any (str_eq "rdns-live") d.flags

has_lists : Destination → Bool
has_lists d = is_some d.lists

known_destination-has_lists :
    (style : Style) (src : Sources) (pd : ProgramDest)
    → has_lists (known_destination style src pd) ≡ true
unfolding known_destination has_lists
known_destination-has_lists style src pd = ground arith

known_destination-is_live :
    (style : Style) (src : Sources) (pd : ProgramDest)
    → is_live (known_destination style src pd) ≡ false
unfolding known_destination
known_destination-is_live style src pd = ground arith

with_rdns-has_lists :
    (style : Style) (src : Sources) (d : Destination) (lookups : ℕ)
    → has_lists (with_rdns style src (d, lookups)).0 ≡ has_lists d
unfolding with_rdns has_lists
with_rdns-has_lists style src d lookups = ground arith

with_facts-has_lists :
    (src : Sources) (hosts : List String) (minutes : List ℕ) (d : Destination)
    → has_lists d ≡ true
    → has_lists (with_facts src hosts minutes d) ≡ true
unfolding with_facts has_lists
with_facts-has_lists src hosts minutes d h = ground arith

trust-is_live : (src : Sources) (d : Destination) → is_live (with_trust src d) ≡ is_live d
unfolding with_trust
trust-is_live src d = ground arith

lists-is_live : (ls : List String) (d : Destination) → is_live (with_lists ls d) ≡ is_live d
lists-is_live [] d = refl
lists-is_live (l ∷ ls) d = refl

context-is_live :
    (c : Result DbError DestContext) (d : Destination) → is_live (with_context c d) ≡ is_live d
context-is_live (ok c) d = refl
context-is_live (err e) d = refl

beacon-is_live : (b : Option Beacon) (d : Destination) → is_live (with_beacon b d) ≡ is_live d
beacon-is_live none d = refl
beacon-is_live (some b) d =
    any-append (str_eq "rdns-live") d.flags ("beacon-like" ∷ []) ∙ or-false _

uniqueness-is_live : (d : Destination) → is_live (with_uniqueness d) ≡ is_live d
uniqueness-is_live d = elim (Bool-cases (is_unique d)) [
  | inl e ↦
      rw e (any-append (str_eq "rdns-live") d.flags ("unique-to-this-program" ∷ []) ∙ or-false _)
  | inr e ↦ rw e
]

with_facts-is_live :
    (src : Sources) (hosts : List String) (minutes : List ℕ) (d : Destination)
    → is_live (with_facts src hosts minutes d) ≡ is_live d
unfolding with_facts
with_facts-is_live src hosts minutes d =
    let with_l = with_lists (listed (src.threat_lists d.dst)) d in
    let rated = record with_l { reputation = remarks (listed (src.reputation d.dst)) } in
    let trusted_d = with_trust src rated in
    let placed = with_context (src.context d.dst hosts) trusted_d in
    uniqueness-is_live (with_beacon (src.beacon minutes) placed)
    ∙ beacon-is_live (src.beacon minutes) placed
    ∙ context-is_live (src.context d.dst hosts) trusted_d
    ∙ trust-is_live src rated
    ∙ lists-is_live (listed (src.threat_lists d.dst)) d

-- A destination whose name was looked up is counted, and no more than fifteen are.
abbrev Counts : ℕ → Destination × ℕ → Type 0
Counts lookups (d, lookups') = ((if is_live d then 1 else 0) + lookups ≤ lookups') × (lookups' ≤ 15)

with_rdns-Counts :
    (style : Style) (src : Sources) (d : Destination) (lookups : ℕ)
    → is_live d ≡ false
    → lookups ≤ 15
    → Counts lookups (with_rdns style src (d, lookups))
unfolding with_rdns
with_rdns-Counts style src d lookups fresh h =
    elim (Bool-cases (str_eq d.hostname "" && ltb lookups 15)) [
      | inl e ↦ rw e (counted (is_live (with_name style (src.reverse_names d.dst) d)), ground arith)
      | inr e ↦ rw (e, fresh) (omega arith, h)
    ]
  where
    counted : (live : Bool) → (if live then 1 else 0) + lookups ≤ lookups + 1
    counted live = ground arith

module _ (style : Style) (src : Sources) (hosts : List String) where
  describe_destination-Counts :
      (pd : ProgramDest) (lookups : ℕ)
      → lookups ≤ 15
      → Counts lookups (describe_destination style src hosts pd lookups)
  unfolding describe_destination
  describe_destination-Counts pd lookups h =
      rw (with_facts-is_live src hosts pd.minutes)
        (with_rdns-Counts style src _ lookups (known_destination-is_live style src pd) h)

  describe_destination-has_lists :
      (pd : ProgramDest) (lookups : ℕ)
      → has_lists (describe_destination style src hosts pd lookups).0 ≡ true
  unfolding describe_destination
  describe_destination-has_lists pd lookups =
      with_facts-has_lists src hosts pd.minutes _
        (with_rdns-has_lists style src _ lookups ∙ known_destination-has_lists style src pd)

  describe_all-has_lists :
      (pds : List ProgramDest) (lookups : ℕ)
      → All (λ d. has_lists d ≡ true) (describe_all style src hosts pds lookups).0
  unfolding describe_all
  describe_all-has_lists [] lookups = tt
  describe_all-has_lists (pd ∷ pds) lookups =
      (describe_destination-has_lists pd lookups, describe_all-has_lists pds _)

  describe_all-Counts :
      (pds : List ProgramDest) (lookups : ℕ)
      → lookups ≤ 15
      → (count_where is_live (describe_all style src hosts pds lookups).0 + lookups
          ≤ (describe_all style src hosts pds lookups).1)
        × ((describe_all style src hosts pds lookups).1 ≤ 15)
  unfolding describe_all
  describe_all-Counts [] lookups h = (omega arith, h)
  describe_all-Counts (pd ∷ pds) lookups h =
      let (counted, few) = describe_destination-Counts pd lookups h in
      let (more, fewer) =
        describe_all-Counts pds (describe_destination style src hosts pd lookups).1 few in
      (ground arith, fewer)

unique_signals-eq_nil : (d : Destination) → has_lists d ≡ true → unique_signals d ≡ []
unfolding unique_signals has_lists
unique_signals-eq_nil d h = ground arith

assess-destinations :
    (style : Style) (now : ℕ) (rep : Report)
    → (assess style now rep).destinations ≡ rep.destinations
unfolding assess
assess-destinations style now rep = refl

module _ (style : Style) (src : Sources) (now : ℕ) (req : Request) {rep : Report}
    (built : build style src now req ≡ ok rep) where
  build-destinations :
      (dests : List ProgramDest) × (hosts : List String) × (rep.destinations
        ≡ (describe_all style src hosts dests 0).0)
  unfolding build
  build-destinations =
      let (sum, _, h₁) = >>=-eq-ok (src.summary req) _ built in
      let (dests, _, h₂) = >>=-eq-ok (src.destinations req) _ h₁ in
      (
        dests,
        own_hosts req sum,
        sym (ap (λ (r : Report). r.destinations) (ok-injective h₂))
            ∙ assess-destinations style now _,
      )

  -- In a report that is built, no destination gives the signal that only this program contacts it,
  -- that it has no name and that its network is an odd one, whatever was found: each destination has
  -- a list of threat lists, which may be empty, and the signal asks for none.
  pub build-no_unique : All (λ d. unique_signals d ≡ []) rep.destinations
  build-no_unique =
      let (dests, hosts, same) = build-destinations in
      rw same (
        All-map (λ d. has_lists d ≡ true) (λ d. unique_signals d ≡ []) _ unique_signals-eq_nil
          (describe_all-has_lists style src hosts dests 0))

  -- A report that is built has the name of at most fifteen destinations from the resolver.
  pub build-few_look_ups : count_where is_live rep.destinations ≤ 15
  build-few_look_ups =
      let (dests, hosts, same) = build-destinations in
      let (counted, few) = describe_all-Counts style src hosts dests 0 (omega arith) in
      rw same (omega (arith, counted, few))
