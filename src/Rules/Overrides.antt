-- ===== src/Rules/Overrides.antt =====
-- The configuration that results from overrides (backend/internal/rules/rules.go, `effective` and
-- `UpdateConfig`).
use pmacct_suricata_analyzer.Prelude.{
  ◌≡◌, ◌≢◌, refl, false, ◌||◌, List, [], ◌∷◌, String, Option, none, some, ok, inl, inr, arith, ◌∙◌,
  sym, ap, Bool-cases, if◌then◌else◌, str_eq, eq_iff, is_some, any, get, put,
}
use pmacct_suricata_analyzer.Prelude.Int.{ℤ, pos, eqb_ℤ, eqb_ℤ→eq, ◌≤ℤ◌}
use pmacct_suricata_analyzer.Values.{Params}
use pmacct_suricata_analyzer.Rules.Types.{
  RuleConfig, Config, Param, Detector, Rule, Env, Sys, config_of, rule, no_config,
}
use pmacct_suricata_analyzer.Rules.Config.{
  is_param, given_params, with_defaults, override_known, effective, effective_builtin, merge_config,
  validate_config,
}
use pmacct_suricata_analyzer.Rules.Engine.{update_config}

-- Reading after a write.
pub get-put :
    {V : Type 0} (k j : String) (v : V) (m : List (String × V))
    → get j (put k v m) ≡ (if str_eq k j then some v else get j m)
get-put k j v [] = refl
get-put k j v ((i, w) ∷ m) = ground (arith, eq_iff k j, eq_iff i k, eq_iff i j, get-put k j v m)

-- A key that the definition lacks is never read, and one that is not overridden keeps its default.
get-override_known :
    (k : String) (given p : Params)
    → (is_some (get k (override_known given p)) ≡ is_some (get k p))
      × (get k given ≡ none → get k (override_known given p) ≡ get k p)
unfolding override_known
get-override_known k [] p = (refl, λ h. refl)
get-override_known k ((j, v) ∷ given) p = elim (Bool-cases (is_some (get j p))) [
  | inl old ↦
      let (same, kept) = get-override_known k given (put j v p) in
      rw old (
        ground (arith, same, get-put j k v p, eq_iff j k),
        λ h. ground (arith, kept, get-put j k v p),
      )
  | inr new ↦
      let (same, kept) = get-override_known k given p in rw new (same, λ h. kept (ground arith))
]

is_some-with_defaults :
    (k : String) (ps : List Param) (p : Params)
    → is_some (get k (with_defaults ps p))
      ≡ (any (λ (d : Param). str_eq d.name k) ps || is_some (get k p))
unfolding with_defaults
is_some-with_defaults k [] p = refl
is_some-with_defaults k (d ∷ ps) p =
    ground
      (arith, is_some-with_defaults k ps (put d.name d.default p), get-put d.name k d.default p)

module _ (parse : String → Option ℤ) (d : Detector) (rc : RuleConfig) (k : String) where
  -- The effective parameters of a built-in rule are exactly those that it defines, whatever the
  -- overrides.
  pub effective_params_known :
      is_some (get k (effective_builtin parse d rc).params) ≡ is_param k d.params
  unfolding effective_builtin
  effective_params_known =
      let (same, _) = get-override_known k (given_params rc.params) (with_defaults d.params []) in
      ground (arith, same, is_some-with_defaults k d.params [])

  -- A parameter that the overrides do not name has the value that it has with no overrides.
  pub effective_params_default :
      get k (given_params rc.params) ≡ none
      → get k (effective_builtin parse d rc).params
        ≡ get k (effective_builtin parse d no_config).params
  unfolding effective_builtin override_known
  effective_params_default h =
      (get-override_known k (given_params rc.params) (with_defaults d.params [])).1 h

config_of-put : (k : String) (c : RuleConfig) (cfg : Config) → config_of k (put k c cfg) ≡ c
config_of-put k c cfg = ground (arith, get-put k k c cfg, eq_iff k k)

config_of-put_ne :
    (k j : String) (c : RuleConfig) (cfg : Config)
    → k ≢ j
    → config_of j (put k c cfg) ≡ config_of j cfg
config_of-put_ne k j c cfg ne = ground (arith, get-put k j c cfg, eq_iff k j)

merged_interval :
    (parse : String → Option ℤ) (def : Detector) (rc cur : RuleConfig) (d : ℤ)
    → parse "" ≡ none
    → parse rc.interval ≡ some d
    → pos 1 ≤ℤ d
    → (effective_builtin parse def (merge_config parse def rc cur)).interval ≡ d
unfolding effective_builtin merge_config
merged_interval parse def rc cur d empty parsed positive =
    elim (Bool-cases (str_eq rc.interval "")) [
      | inl blank ↦
          absurd (cc (sym empty ∙ ap parse (sym ((eq_iff rc.interval "").0 blank)) ∙ parsed))
      | inr full ↦ elim (Bool-cases (eqb_ℤ d def.interval)) [
        | inl same ↦ rw (full, parsed, same, empty) (sym (eqb_ℤ→eq d def.interval same))
        | inr new ↦ rw (full, parsed, new, parsed) (ground arith)
      ]
    ]

merged_padded :
    (parse : String → Option ℤ) (def : Detector) (rc cur : RuleConfig)
    → rc.interval ≢ ""
    → parse "" ≡ none
    → parse rc.interval ≡ none
    → (effective_builtin parse def (merge_config parse def rc cur)).interval ≡ def.interval
unfolding effective_builtin merge_config
merged_padded parse def rc cur full empty unparsed =
    let f : str_eq rc.interval "" ≡ false = ground (arith, eq_iff rc.interval "") in
    elim (Bool-cases (eqb_ℤ (pos 0) def.interval)) [
      | inl z ↦ rw (f, unparsed, z, empty)
      | inr z ↦ rw (f, unparsed, z, unparsed)
    ]

-- A built-in rule found by name, and an update of it that is accepted.
module _ (env : Env) (name : String) (rc : RuleConfig) (s : Sys) (r : Rule)
    (found : rule s.engine name ≡ some r) (built_in : r.custom ≡ none)
    (accepted : validate_config env.parse_duration r rc ≡ ok tt) where
  -- The overrides after the update.
  abbrev new_cfg : Config
  new_cfg =
      put r.definition.name
        (merge_config env.parse_duration r.definition rc (config_of r.definition.name s.engine.cfg))
        s.engine.cfg

  cfg-update_config : (update_config env name rc s).0.engine ≡ record (s.engine) { cfg = new_cfg }
  unfolding update_config
  cfg-update_config = elim (Bool-cases env.setting_write_fails) [
    | inl e ↦
        rw (found, update_config)
          (rw (accepted, update_config) (rw (built_in, update_config) (rw (e, update_config) refl)))
    | inr e ↦
        rw (found, update_config)
          (rw (accepted, update_config) (rw (built_in, update_config) (rw (e, update_config) refl)))
  ]

  -- The rule's own configuration after the update.
  effective-update_config :
      effective env.parse_duration (update_config env name rc s).0.engine r
      ≡ effective_builtin env.parse_duration r.definition (
          merge_config env.parse_duration r.definition rc
            (config_of r.definition.name s.engine.cfg))
  unfolding effective
  effective-update_config = rw cfg-update_config (
      rw (built_in, effective)
        (rw (
          config_of-put r.definition.name
            (merge_config env.parse_duration r.definition rc
              (config_of r.definition.name s.engine.cfg))
            s.engine.cfg)))

  -- After an accepted update of a built-in rule that gives an interval which parses to a positive
  -- duration, that duration is the rule's effective interval, also where it is the default and the
  -- override is cleared. The empty text is taken not to parse.
  pub interval_takes_effect :
      (d : ℤ)
      → env.parse_duration "" ≡ none
      → env.parse_duration rc.interval ≡ some d
      → pos 1 ≤ℤ d
      → (effective env.parse_duration (update_config env name rc s).0.engine r).interval ≡ d
  interval_takes_effect d empty parsed positive =
      rw effective-update_config
        (merged_interval env.parse_duration r.definition rc _ d empty parsed positive)

  -- After an accepted update of a built-in rule whose interval is not empty and does not parse as it
  -- is given, which spaces about it bring about, the rule has its default interval: the override is
  -- stored as it is given, and is not trimmed when it is read. The empty text is taken not to parse.
  pub padded_interval_ignored :
      rc.interval ≢ ""
      → env.parse_duration "" ≡ none
      → env.parse_duration rc.interval ≡ none
      → (effective env.parse_duration (update_config env name rc s).0.engine r).interval
        ≡ r.definition.interval
  padded_interval_ignored full empty unparsed =
      rw effective-update_config
        (merged_padded env.parse_duration r.definition rc _ full empty unparsed)

  -- An accepted update of a built-in rule leaves the overrides of every other name as they were, and
  -- the definitions, the custom rules and the run states too.
  pub update_config_others :
      (other : String)
      → r.definition.name ≢ other
      → (config_of other (update_config env name rc s).0.engine.cfg ≡ config_of other s.engine.cfg)
        × ((update_config env name rc s).0.engine.builtin ≡ s.engine.builtin)
        × ((update_config env name rc s).0.engine.custom ≡ s.engine.custom)
        × ((update_config env name rc s).0.engine.state ≡ s.engine.state)
  update_config_others other ne =
      rw cfg-update_config
        (config_of-put_ne r.definition.name other _ s.engine.cfg ne, refl, refl, refl)
